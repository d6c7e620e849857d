-- ===== src/Namespace/Server.antt =====
-- namespace-controller/main.go, server/http_server.go and the constructors that they call: how the
-- webhook starts.
pub mod Runs
pub mod Answers
use balticlsc_platform.Common.{
  String, ◌<>◌, ℕ, Bool, true, List, [], ◌∷◌, if◌then◌else◌, Error, Result, ok, err, Exec, show_nat,
}
use balticlsc_platform.Common.Dict.{Dict}
use balticlsc_platform.Rancher.Client.{Client}
use balticlsc_platform.Rancher.Http.{Transport, Gjson}
use balticlsc_platform.Rancher.DefaultClient.{Settings}
use balticlsc_platform.Rancher.DefaultClient.Reader.{default_client}
use balticlsc_platform.Namespace.Resolver.{ProjectResolver, Runtime, empty_cache}
use balticlsc_platform.Namespace.Admission.{Codec}
use balticlsc_platform.Namespace.Admission.Http.{HttpRequest, Exchange, serve_admit_func}

-- `NOT_MEMBER_IN_ANY_PROJECTS` and its neighbours.
abbrev not_member_in_any_projects : ℕ
not_member_in_any_projects = 0

abbrev member_of_multiple_projects : ℕ
member_of_multiple_projects = 1

pub record ResolveError : Type 0 where
  pub error_type : ℕ

unfoldable message : ResolveError → Error
message e = "Resolve error"

-- The end of `ResolveProjectIDFromRancher`, for the projects found.
unfoldable only_project : List String → Result String
unfolding message
only_project [] = err (message (record { error_type = not_member_in_any_projects }))
only_project (_ ∷ _ ∷ _) = err (message (record { error_type = member_of_multiple_projects }))
only_project (id ∷ []) = ok id

-- The list of projects is declared and never filled.
unfoldable pub resolve_project_id_from_rancher : String → Result String
unfolding only_project
resolve_project_id_from_rancher user = only_project []

abbrev tls_dir : String
tls_dir = "/run/secrets/tls"

abbrev tls_cert_file : String
tls_cert_file = "tls.crt"

abbrev tls_key_file : String
tls_key_file = "tls.key"

-- What a registered handler does with a request.
abbrev pub Handler : Type 0 → Type 0
Handler W = HttpRequest → Exec (Exchange W) (Unit {0})

-- `http.Server` with its multiplexer: the handler of each path.
pub record HttpServer (W : Type 0) : Type 0 where
  pub addr : String
  pub routes : Dict (Handler W)

-- What the start-up calls: the environment, `filepath.Join`, the default transport's TLS
-- settings, and the server's loop, which returns only with an error.
pub record Platform (W : Type 0) : Type 0 where
  pub get_env : String → String
  pub join_path : String → String → String
  pub skip_verify : W → W
  pub listen_and_serve_tls :
      HttpServer W → String → String → ProjectResolver W → Error × ProjectResolver W

module _ {J W : Type 0} (gjson : Gjson J) (send : Transport W) (platform : Platform W) where
  -- The resolver and its client: URL, cluster, token, whether certificates go unchecked.
  unfoldable pub new_project_resolver :
      String → String → String → Bool → W → Client W × ProjectResolver W
  new_project_resolver url cluster token disable w = (
    default_client gjson send (record { server_url = url; token = token }),
    record {
      cluster_id = cluster;
      cache = empty_cache;
      world = if disable then platform.skip_verify w else w;
    },
  )

  module _ {Q : Type 0} (codec : Codec Q) (runtime : Runtime W) where
    -- `AdmitFuncHandler` of `NewAdmissionController`.
    unfoldable pub admit_func_handler : Client W → Handler W
    admit_func_handler client req = serve_admit_func codec client runtime req

    -- The server that `ListenForever` sets up.
    unfoldable pub mutating_server : ℕ → Client W → HttpServer W
    unfolding admit_func_handler
    mutating_server port client = record {
      addr = ":" <> show_nat port;
      routes = ("/mutate", admit_func_handler client) ∷ [];
    }

    -- `log.Fatal` ends the process with the message of the error.
    unfoldable pub listen_forever :
        ℕ → String → String → String → String → String → Bool → Exec W (Unit {0})
    unfolding new_project_resolver mutating_server
    listen_forever port cert key url token cluster disable w =
        let (client, resolver) = new_project_resolver url cluster token disable w in
        let (e, s) =
          platform.listen_and_serve_tls (mutating_server port client) cert key resolver in
        (err e, s.world)

    unfoldable pub main : Exec W (Unit {0})
    unfolding listen_forever
    main =
        listen_forever 8443 (platform.join_path tls_dir tls_cert_file)
          (platform.join_path tls_dir tls_key_file) (platform.get_env "RANCHER_URL")
          (platform.get_env "RANCHER_TOKEN") (platform.get_env "RANCHER_CLUSTER_ID") true
