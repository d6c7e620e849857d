-- ===== src/Rancher/Yaml.antt =====
-- upstream/rancher-go/client/yaml.go: the file of projects. Reading a file and parsing YAML are
-- parameters.
use balticlsc_platform.Common.{String, List, Error, ok, err, Exec, ◌>>=◌, ◌⊎◌, inl, inr}
use balticlsc_platform.Rancher.Types.{Project}

pub record ProjectList : Type 0 where
  pub projects : List Project

module _ {W : Type 0} (read_file : String → Exec W String)
    (unmarshal : String → Error ⊎ ProjectList) where
  unfoldable pub read_projects : String → Exec W ProjectList
  read_projects yaml_file = do
    bytes ← read_file yaml_file
    λ w. elim (unmarshal bytes) [ inl e ↦ (err e, w) | inr projects ↦ (ok projects, w) ]
