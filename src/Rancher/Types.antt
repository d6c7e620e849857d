-- ===== src/Rancher/Types.antt =====
-- upstream/rancher-go/client/types.go, and `Entity` of client.go.
use balticlsc_platform.Common.{String, Bool, List, ◌==◌, ◌&&◌}
use balticlsc_platform.Common.Dict.{Dict}

pub record Entity : Type 0 where
  pub id : String
  pub name : String

abbrev pub Quotas : Type 0
Quotas = Dict String

pub record ProjectQuotas : Type 0 where
  pub project : Quotas
  pub used : Quotas
  pub namespace : Quotas

abbrev pub member_type_user : String
member_type_user = "User"

abbrev pub member_type_group : String
member_type_group = "Group"

pub record Member : Type 0 where
  pub id : String
  pub user_id : String
  pub project_id : String
  pub member_type : String
  pub principal_id : String
  pub role_template_id : String

pub record Project : Type 0 where
  pub id : String
  pub name : String
  pub description : String
  pub pod_security_policy_id : String
  pub members : List Member
  pub resource_quotas : ProjectQuotas

-- `Compare` ignores the ID, the user and the project.
unfoldable pub compare : Member → Member → Bool
compare m p =
    m.member_type == p.member_type
    && (m.principal_id == p.principal_id && m.role_template_id == p.role_template_id)
