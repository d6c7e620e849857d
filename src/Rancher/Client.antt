-- ===== src/Rancher/Client.antt =====
-- The interfaces `Reader`, `Writer` and `Client` of upstream/rancher-go/client/client.go, over the
-- state `W` of what the client talks to.
use balticlsc_platform.Common.{String, List, Option, Error, Exec}
use balticlsc_platform.Rancher.Bytes.{Bytes}
use balticlsc_platform.Rancher.Types.{Entity, Member, Project, ProjectQuotas}

pub record Client (W : Type 0) : Type 0 where
  pub get_clusters : Exec W (List Entity)
  pub get_namespaces : String → Exec W (List String)
  pub get_projects : String → Exec W (List Entity)
  pub get_project_namespaces : String → String → Exec W (List String)
  pub get_project_groups : String → Exec W (List Bytes)
  pub get_project_quotas : String → Exec W ProjectQuotas
  pub get_project_members : String → Exec W (List Member)
  pub get_project_detail : String → Exec W Project
  -- An ID may come back beside an error.
  pub create_project : String → Project → Exec W (String × Option Error)
  pub delete_project : String → Exec W (Unit {0})
  pub update_project : String → String → Project → Exec W (Unit {0})
  pub add_project_member : String → Member → Exec W (Unit {0})
  pub add_user : String → String → Exec W String
  pub delete_user : String → Exec W (Unit {0})
  pub get_kube_config : String → Exec W String
  pub get_user_token : String → String → Exec W String
