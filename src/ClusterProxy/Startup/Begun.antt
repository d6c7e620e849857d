-- ===== src/ClusterProxy/Startup/Begun.antt =====
-- What a cluster proxy that has started works with.
use balticlsc_platform.Common.{
  String, ◌<>◌, false, ◌==◌, if◌then◌else◌, Result, ok, >>=-eq-ok, or_panic, or_fatal, or_panic-ok,
  or_fatal-ok, ◌≡◌, refl, ap, eq_iff, eq_refl, subst, arith, sym, ◌∙◌, Bool-cases, inl, inr,
}
use text.Mathlib.TextLemmas.{append_cancel_left}
use balticlsc_platform.Rancher.Types.{Project}
use balticlsc_platform.Rancher.Client.{Client}
use balticlsc_platform.Rancher.Http.{Transport, Gjson}
use balticlsc_platform.Rancher.DefaultClient.Reader.{default_client}
use balticlsc_platform.ClusterProxy.Kube.{Kube}
use balticlsc_platform.ClusterProxy.Conf.{get_project_id}
use balticlsc_platform.ClusterProxy.Startup.{
  Setup, setup_from, configure, Platform, Proxy, read_environment, connect, introduce, start,
  start_with,
}

-- The variables that must be set are.
pub record IsComplete (env : String → String) : Type 0 where
  pub cluster : (env "RANCHER_CLUSTER_ID" == "") ≡ false
  pub project : (env "RANCHER_PROJECT_ID" == "") ≡ false
  pub url : (env "RANCHER_URL" == "") ≡ false
  pub token : (env "RANCHER_TOKEN" == "") ≡ false

configure-ok :
    (env : String → String) (s : Setup)
    → configure env ≡ ok s
    → IsComplete env × (s ≡ setup_from env)
unfolding configure
configure-ok env s h = (
  record {
    cluster = ground arith;
    project = ground arith;
    url = ground arith;
    token = ground arith;
  },
  ground arith,
)

-- The test of the port with its colon is that of the port.
address :
    (port : String)
    → (if ":" <> port == ":" then ":50051" else ":" <> port)
      ≡ (if port == "" then ":50051" else ":" <> port)
address port = elim (Bool-cases (port == "")) [
  | inl unset ↦ rw ((eq_iff port "").0 unset) refl
  | inr set ↦ elim (Bool-cases (":" <> port == ":")) [
    | inl only ↦
        let empty : port ≡ "" =
          append_cancel_left ":" port "" ((eq_iff (":" <> port) ":").0 only) in
        cc (eq_refl "", empty)
    | inr more ↦ rw (set, more) refl
  ]
]

returned : {A W : Type 0} (a b : A) (s t : W) → ◌≡◌ {A = Result A × W} (ok a, s) (ok b, t) → b ≡ a
returned a b s t h = cc

module _ {J Config Clientset Dynamic Discovery Listener Q W : Type 0} (gjson : Gjson J)
    (send : Transport W) (platform : Platform Config Clientset Dynamic Discovery Listener Q W) where
  abbrev env : String → String
  env = platform.get_env

  abbrev pub rancher : Client W
  rancher =
      default_client gjson send
        (record { server_url = env "RANCHER_URL"; token = env "RANCHER_TOKEN" })

  -- What the proxy and its listener are made from.
  pub record IsBegun (p : Proxy Q W) (l : Listener) : Type 0 where
    pub complete : IsComplete env
    pub cluster : p.conf.cluster_id ≡ env "RANCHER_CLUSTER_ID"
    pub project : p.conf.project_id ≡ env "RANCHER_PROJECT_ID"
    pub named :
        (found : Project) × (v : W) × ((rancher.get_project_detail
            (env "RANCHER_CLUSTER_ID" <> ":" <> env "RANCHER_PROJECT_ID")
            v).0
          ≡ ok found)
        × (p.conf.project_name ≡ found.name)
    pub client : p.rancher_client ≡ rancher
    pub listening :
        (v : W) × ((platform.listen
            (if env "LISTEN_PORT" == "" then ":50051" else ":" <> env "LISTEN_PORT")
            v).0
          ≡ ok l)

  introduce-ok :
      (kube : Kube Q W) (w w' : W) (p : Proxy Q W)
      → introduce gjson send platform (setup_from env) kube w ≡ (ok p, w')
      → (found : Project) × (v : W) × ((rancher.get_project_detail
            (env "RANCHER_CLUSTER_ID" <> ":" <> env "RANCHER_PROJECT_ID")
            v).0
          ≡ ok found)
        × (p ≡ record {
          conf = record (setup_from env).conf { project_name = found.name };
          kube = kube;
          rancher_client = rancher;
        })
  unfolding introduce setup_from get_project_id
  introduce-ok kube w w' p h =
      let m = or_panic (
        rancher.get_project_detail (env "RANCHER_CLUSTER_ID" <> ":" <> env "RANCHER_PROJECT_ID")) in
      let (found, t, read, done) = >>=-eq-ok m _ (platform.skip_verify w) p w' h in
      (
        found,
        platform.skip_verify w,
        ap (λ (x : Result Project × W). x.0)
            (or_panic-ok
              (rancher.get_project_detail
                (env "RANCHER_CLUSTER_ID" <> ":" <> env "RANCHER_PROJECT_ID"))
              (platform.skip_verify w) t found read),
        returned _ _ _ _ done,
      )

  start_with-ok :
      (w w' : W) (p : Proxy Q W) (l : Listener)
      → IsComplete env
      → start_with gjson send platform (setup_from env) w ≡ (ok (p, l), w')
      → IsBegun p l
  unfolding start_with setup_from
  start_with-ok w w' p l complete h =
      let setup = setup_from env in
      let (kube, w₁, connected, h₁) =
        >>=-eq-ok (connect gjson send platform setup) _ w (p, l) w' h in
      let (proxy, w₂, introduced, h₂) =
        >>=-eq-ok (introduce gjson send platform setup kube) _ w₁ (p, l) w' h₁ in
      let (listener, w₃, listening, h₃) =
        >>=-eq-ok (or_fatal "failed to listen: " (platform.listen setup.listen_port)) _ w₂ (p, l) w'
          h₂ in
      begun kube w₁ w₂ w₃ proxy listener introduced listening (returned _ _ _ _ h₃)
    where
      begun :
          (kube : Kube Q W) (w₁ w₂ w₃ : W) (proxy : Proxy Q W) (listener : Listener)
          → introduce gjson send platform (setup_from env) kube w₁ ≡ (ok proxy, w₂)
          → or_fatal "failed to listen: " (platform.listen (setup_from env).listen_port) w₂
            ≡ (ok listener, w₃)
          → ◌≡◌ {A = Proxy Q W × Listener} (p, l) (proxy, listener)
          → IsBegun p l
      begun kube w₁ w₂ w₃ proxy listener introduced listening e =
          let (found, v, read, made) = introduce-ok kube w₁ w₂ proxy introduced in
          let same : p ≡ record {
            conf = record (setup_from env).conf { project_name = found.name };
            kube = kube;
            rancher_client = rancher;
          } =
            ap (λ (x : Proxy Q W × Listener). x.0) e ∙ made in
          record {
            complete = complete;
            cluster = rw same (unfold setup_from in refl);
            project = rw same (unfold setup_from in refl);
            named = (found, v, read, rw same refl);
            client = rw same refl;
            listening = (
              w₂,
              rw (address (env "LISTEN_PORT")) at (
                  ap (λ (x : Result Listener × W). x.0)
                    (or_fatal-ok "failed to listen: " (platform.listen (setup_from env).listen_port)
                      w₂ w₃ listener listening)
                  ∙ ap ok (ap (λ (x : Proxy Q W × Listener). x.1) (sym e))),
            );
          }

  -- A proxy that has started has found the four variables, keeps the IDs that they give, carries the
  -- name that Rancher gave for that project, keeps the client for Rancher's URL and token, and
  -- listens on the port of the environment, or on 50051 if it is not set.
  pub start_lem :
      (w w' : W) (p : Proxy Q W) (l : Listener)
      → start gjson send platform w ≡ (ok (p, l), w')
      → IsBegun p l
  unfolding start read_environment
  start_lem w w' p l h =
      let (setup, w₁, configured, h₁) =
        >>=-eq-ok (read_environment gjson send platform) (start_with gjson send platform) w (p, l)
          w' h in
      let (complete, same) =
        configure-ok env setup (ap (λ (x : Result Setup × W). x.0) configured) in
      start_with-ok w₁ w' p l complete
        (subst (λ s. start_with gjson send platform s w₁ ≡ (ok (p, l), w')) same h₁)
