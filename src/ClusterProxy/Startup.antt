-- ===== src/ClusterProxy/Startup.antt =====
-- cluster-proxy/server/main.go: `main`, from the environment to the server. An error here is
-- `log.Fatalf`, which ends the process with the message.
pub mod Begun
pub mod Boots
use balticlsc_platform.Common.{
  String, ◌<>◌, Bool, true, false, not, List, [], ◌∷◌, Option, none, some, ◌==◌, if◌then◌else◌,
  Error, Result, ok, err, panicked, Exec, ◌>>=◌, ◌>>◌, pure, or_panic, or_fatal,
}
use balticlsc_platform.Common.Dict.{Dict}
use balticlsc_platform.Rancher.Client.{Client}
use balticlsc_platform.Rancher.Http.{Transport, Gjson}
use balticlsc_platform.Rancher.DefaultClient.{Settings}
use balticlsc_platform.Rancher.DefaultClient.Reader.{default_client}
use balticlsc_platform.ClusterProxy.Kube.{Kube, Quantities}
use balticlsc_platform.ClusterProxy.Conf.{ClusterProxyConf, get_project_id}
use balticlsc_platform.ClusterProxy.Service.{ClusterProxyService, server}

-- What the environment says; the name of the project is not known yet.
pub record Setup : Type 0 where
  pub conf : ClusterProxyConf
  pub rancher : Settings
  pub listen_port : String
  pub kube_config : String
  pub insecure : Bool

-- The tests of the port and of the path come after those that panic.
unfoldable pub setup_from : (String → String) → Setup
setup_from env =
    let port = ":" <> env "LISTEN_PORT" in
    record {
      conf = record {
        cluster_id = env "RANCHER_CLUSTER_ID";
        project_id = env "RANCHER_PROJECT_ID";
        project_name = "";
        debug = not (env "DEBUG" == "");
      };
      rancher = record { server_url = env "RANCHER_URL"; token = env "RANCHER_TOKEN" };
      listen_port = if port == ":" then ":50051" else port;
      kube_config = if env "KUBECONFIG" == "" then "/config" else env "KUBECONFIG";
      insecure = env "TLS_INSECURE" == "true";
    }

unfoldable pub configure : (String → String) → Result Setup
configure env =
    if env "RANCHER_CLUSTER_ID" == ""
    then panicked "env RANCHER_CLUSTER_ID not set!"
    else if env "RANCHER_PROJECT_ID" == ""
    then panicked "env RANCHER_PROJECT_ID not set!"
    else if env "RANCHER_URL" == ""
    then panicked "env RANCHER_URL not set!"
    else if env "RANCHER_TOKEN" == ""
    then panicked "env RANCHER_TOKEN not set!"
    else ok (setup_from env)

-- The libraries that `main` calls: the environment, the flag of the path with its default, the
-- configuration and the clients of Kubernetes, with the calls of `Kube` that they serve, the TLS
-- settings of resty, the listener, and the loop of the gRPC server.
pub record Platform (Config Clientset Dynamic Discovery Listener Q W : Type 0) : Type 0 where
  pub get_env : String → String
  pub kubeconfig_flag : String → Exec W String
  pub build_config : String → Exec W Config
  pub with_insecure : Bool → Config → Config
  pub new_clientset : Config → Exec W Clientset
  pub new_dynamic : Config → Exec W Dynamic
  pub new_discovery : Config → Exec W Discovery
  pub kube : Clientset → Dynamic → Discovery → Kube Q W
  pub skip_verify : W → W
  pub listen : String → Exec W Listener
  pub serve : Listener → ClusterProxyService W → Exec W (Unit {0})

-- The variable `proxy` of the program.
pub record Proxy (Q W : Type 0) : Type 0 where
  pub conf : ClusterProxyConf
  pub kube : Kube Q W
  pub rancher_client : Client W

module _ {J Config Clientset Dynamic Discovery Listener Q W : Type 0} (gjson : Gjson J)
    (send : Transport W) (platform : Platform Config Clientset Dynamic Discovery Listener Q W) where
  unfoldable pub read_environment : Exec W Setup
  unfolding configure
  read_environment w = (configure platform.get_env, w)

  unfoldable pub connect : Setup → Exec W (Kube Q W)
  connect setup = do
    path ← platform.kubeconfig_flag setup.kube_config
    read ← or_panic (platform.build_config path)
    clientset ← or_panic (platform.new_clientset (platform.with_insecure setup.insecure read))
    client ← or_panic (platform.new_dynamic (platform.with_insecure setup.insecure read))
    dc ← or_panic (platform.new_discovery (platform.with_insecure setup.insecure read))
    pure (platform.kube clientset client dc)

  -- The name of the project comes from Rancher.
  unfoldable pub introduce : Setup → Kube Q W → Exec W (Proxy Q W)
  introduce setup kube w =
      (do
        project ← or_panic (
            (default_client gjson send setup.rancher).get_project_detail
              (get_project_id setup.conf))
        pure (record {
          conf = record setup.conf { project_name = project.name };
          kube = kube;
          rancher_client = default_client gjson send setup.rancher;
        }))
        (platform.skip_verify w)

  -- From the environment to the listener.
  unfoldable pub start_with : Setup → Exec W (Proxy Q W × Listener)
  unfolding connect introduce
  start_with setup = do
    kube ← connect setup
    proxy ← introduce setup kube
    listener ← or_fatal "failed to listen: " (platform.listen setup.listen_port)
    pure (proxy, listener)

  unfoldable pub start : Exec W (Proxy Q W × Listener)
  unfolding read_environment start_with
  start = do setup ← read_environment; start_with setup

  module _ (quantities : Quantities Q)
      (cattle_conditions : String → Option (List (Dict String))) where
    abbrev pub serving : Proxy Q W → ClusterProxyService W
    serving proxy = server quantities proxy.kube proxy.rancher_client cattle_conditions proxy.conf

    unfoldable pub main : Exec W (Unit {0})
    unfolding start
    main = do
      started ← start
      or_fatal "failed to serve: " (platform.serve started.1 (serving started.0))
