-- ===== src/ClusterProxy/Conf.antt =====
-- cluster-proxy/server/main.go: the configuration and the names made from it.
use balticlsc_platform.Common.{
  Bool, String, ◌<>◌, ℕ, Option, Error, show_nat, ◌≡◌, show_nat-injective,
}
use text.Mathlib.TextLemmas.{append_cancel_left}
use balticlsc_platform.ClusterProxy.Proto.{ClusterStatusResponse}

pub record ClusterProxyConf : Type 0 where
  pub cluster_id : String
  pub project_id : String
  pub project_name : String
  pub debug : Bool

unfoldable pub get_ns_name_for_batch : ClusterProxyConf → String → String
get_ns_name_for_batch proxy batch_id = proxy.project_name <> "-" <> batch_id

unfoldable pub get_project_id : ClusterProxyConf → String
get_project_id proxy = proxy.cluster_id <> ":" <> proxy.project_id

unfoldable pub get_volume_name : String → ℕ → String
get_volume_name module_id idx = module_id <> "-" <> show_nat idx

unfoldable pub get_service_name : String → String
get_service_name module_id = module_id

-- What a handler returns: a response, and an error or none.
abbrev pub Reply : Type 0
Reply = ClusterStatusResponse × Option Error

pub get_volume_name-injective :
    (m : String) (i j : ℕ) → get_volume_name m i ≡ get_volume_name m j → i ≡ j
unfolding get_volume_name
get_volume_name-injective m i j e =
    show_nat-injective i j (append_cancel_left "-" _ _ (append_cancel_left m _ _ e))

-- Different batches have different namespaces, and different volumes of a module different names.
names-injective :
    (proxy : ClusterProxyConf)
    → ((a b : String) → get_ns_name_for_batch proxy a ≡ get_ns_name_for_batch proxy b → a ≡ b)
      × ((m : String) (i j : ℕ) → get_volume_name m i ≡ get_volume_name m j → i ≡ j)
unfolding get_ns_name_for_batch
names-injective proxy = (
  λ a b e.
      append_cancel_left "-" a b (append_cancel_left proxy.project_name ("-" <> a) ("-" <> b) e),
  get_volume_name-injective,
)
