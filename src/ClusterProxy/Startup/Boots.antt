-- ===== src/ClusterProxy/Startup/Boots.antt =====
-- When the cluster proxy starts.
use balticlsc_platform.Common.{
  String, ok, or_panic, or_fatal, ◌≡◌, ◌↔◌, refl, Succeeds, Yields, >>=-Succeeds, >>=-Yields,
  or_panic-Succeeds, or_panic-Yields, or_fatal-Succeeds,
}
use balticlsc_platform.Rancher.Http.{Transport, Gjson}
use balticlsc_platform.ClusterProxy.Kube.{Kube}
use balticlsc_platform.ClusterProxy.Conf.{get_project_id}
use balticlsc_platform.ClusterProxy.Startup.{
  Setup, setup_from, configure, Platform, Proxy, read_environment, connect, introduce, start,
  start_with,
}
use balticlsc_platform.ClusterProxy.Startup.Begun.{IsComplete, IsBegun, start_lem, rancher}

configure-IsComplete :
    (env : String → String) → IsComplete env → configure env ≡ ok (setup_from env)
unfolding configure
configure-IsComplete env h = rw (h.cluster, configure) (rw h.project (rw h.url (rw h.token refl)))

module _ {J Config Clientset Dynamic Discovery Listener Q W : Type 0} (gjson : Gjson J)
    (send : Transport W) (platform : Platform Config Clientset Dynamic Discovery Listener Q W) where
  abbrev pub configured : Setup
  configured = setup_from platform.get_env

  -- The configuration with its TLS settings.
  abbrev pub prepared : Config → Config
  prepared = platform.with_insecure configured.insecure

  -- The libraries do not fail at what `main` asks of them: the command line gives a path, the file
  -- there is a configuration that the clients take, Rancher answers for the project of the
  -- environment, and the port is free.
  pub record Boots : Type 0 where
    pub path : String
    pub kubeconfig_flag : Yields (platform.kubeconfig_flag configured.kube_config) path
    pub read : Config
    pub build_config : Yields (platform.build_config path) read
    pub new_clientset : Succeeds (platform.new_clientset (prepared read))
    pub new_dynamic : Succeeds (platform.new_dynamic (prepared read))
    pub new_discovery : Succeeds (platform.new_discovery (prepared read))
    pub project :
        Succeeds ((rancher gjson send platform).get_project_detail (get_project_id configured.conf))
    pub listen : Succeeds (platform.listen configured.listen_port)

  connect-Succeeds : Boots → Succeeds (connect gjson send platform configured)
  unfolding connect
  connect-Succeeds h =
      >>=-Yields (platform.kubeconfig_flag configured.kube_config) _ h.path h.kubeconfig_flag (
        >>=-Yields (or_panic (platform.build_config h.path)) _ h.read
          (or_panic-Yields _ h.read h.build_config)
          (>>=-Succeeds (or_panic (platform.new_clientset (prepared h.read))) _
            (or_panic-Succeeds _ h.new_clientset)
            (λ clientset.
              >>=-Succeeds (or_panic (platform.new_dynamic (prepared h.read))) _
                (or_panic-Succeeds _ h.new_dynamic)
                (λ client.
                  >>=-Succeeds (or_panic (platform.new_discovery (prepared h.read))) _
                    (or_panic-Succeeds _ h.new_discovery)
                    (λ dc w. (platform.kube clientset client dc, w, refl))))))

  introduce-Succeeds :
      Boots → (kube : Kube Q W) → Succeeds (introduce gjson send platform configured kube)
  unfolding introduce setup_from
  introduce-Succeeds h kube w =
      let id = get_project_id configured.conf in
      >>=-Succeeds (or_panic ((rancher gjson send platform).get_project_detail id)) _
        (or_panic-Succeeds _ h.project) (λ found t. (_, t, refl)) (platform.skip_verify w)

  start_with-Succeeds :
      Boots → Succeeds (start_with gjson send platform (setup_from platform.get_env))
  unfolding start_with
  start_with-Succeeds h =
      let setup = setup_from platform.get_env in
      >>=-Succeeds (connect gjson send platform setup) _ (connect-Succeeds h) (λ kube.
        >>=-Succeeds (introduce gjson send platform setup kube) _ (introduce-Succeeds h kube)
          (λ proxy.
            >>=-Succeeds (or_fatal "failed to listen: " (platform.listen setup.listen_port)) _
              (or_fatal-Succeeds "failed to listen: " _ h.listen)
              (λ listener w. ((proxy, listener), w, refl))))

  -- Where the libraries do not fail at what `main` asks of them, and Rancher answers for the one project
  -- of the environment (`Boots`), the proxy starts exactly if the environment sets the cluster, the
  -- project, Rancher's URL and the token. It then keeps these IDs, carries the
  -- name that Rancher gave for that project, keeps the client for Rancher's URL and token, and listens
  -- on the port of the environment, or on 50051 if it is not set.
  pub start-IsBegun :
      (w : W)
      → Boots
      → IsComplete platform.get_env ↔ (
          (p : Proxy Q W) × (l : Listener) × (w' : W) × (start gjson send platform w
            ≡ (ok (p, l), w'))
          × IsBegun gjson send platform p l)
  unfolding start read_environment
  start-IsBegun w h = (
    λ complete.
        let ((p, l), w', begun) = start_with-Succeeds h w in
        let started : start gjson send platform w ≡ (ok (p, l), w') =
          rw (configure-IsComplete platform.get_env complete) begun in
        (p, l, w', started, start_lem gjson send platform w w' p l started),
    λ k. let (p, l, w', started, begun) = k in begun.complete,
  )
