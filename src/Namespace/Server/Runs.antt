-- ===== src/Namespace/Server/Runs.antt =====
-- The webhook from its start, over any sequence of requests.
use balticlsc_platform.Common.{String, ℕ, Bool, some, ◌≡◌, refl, inl, subst, sym, ◌==◌, not, ok}
use balticlsc_platform.Common.Dict
use balticlsc_platform.Rancher.Client.{Client}
use balticlsc_platform.Rancher.Http.{Transport, Gjson}
use balticlsc_platform.Rancher.DefaultClient.{Settings}
use balticlsc_platform.Rancher.DefaultClient.Reader.{default_client}
use balticlsc_platform.Namespace.Resolver.{
  ProjectResolver, Runtime, projects_of, project_id_of, empty_cache, resolve_projects_by_user,
  resolve_project_id_by_namespace,
}
use balticlsc_platform.Namespace.Resolver.Refresh.{Directory, Serves, memberships, project_of}
use balticlsc_platform.Namespace.Resolver.Answers.{
  IsFresh, id_or_empty, resolve_projects_by_user_correct, resolve_project_id_by_namespace_correct,
}
use balticlsc_platform.Namespace.Resolver.OverHttp.{Publishes, default_client-Serves}
use balticlsc_platform.Namespace.Resolver.Kept.{Agrees}
use balticlsc_platform.Namespace.Admission.{Codec}
use balticlsc_platform.Namespace.Admission.Http.{
  HttpRequest, Exchange, fresh_writer, serve_admit_func,
}
use balticlsc_platform.Namespace.Admission.Kept.{serve_admit_func-Agrees}
use balticlsc_platform.Namespace.Server.{
  Handler, HttpServer, Platform, new_project_resolver, admit_func_handler, mutating_server,
}

abbrev pub exchange_of : {W : Type 0} → ProjectResolver W → Exchange W
exchange_of s = record { writer = fresh_writer; resolver = s }

module _ {W : Type 0} (server : HttpServer W) where
  -- One step of a running server: it handles a request at one of its paths, or the world changes
  -- by itself.
  pub data Serving : ProjectResolver W → ProjectResolver W → Type 0 where
    handled :
        (path : String) (handler : Handler W)
        → Dict.lookup path server.routes ≡ some handler
        → (req : HttpRequest) (s : ProjectResolver W)
        → Serving s (handler req (exchange_of s)).1.resolver
    elsewhere : (w : W) (s : ProjectResolver W) → Serving s (record s { world = w })

  -- Any number of steps.
  pub data Served : ProjectResolver W → ProjectResolver W → Type 0 where
    started : {s : ProjectResolver W} → Served s s
    after : {s t u : ProjectResolver W} → Served s t → Serving t u → Served s u

  -- What every step keeps, every run keeps.
  Served-invariant :
      (P : ProjectResolver W → Type 0)
      → ((s t : ProjectResolver W) → Serving s t → P s → P t)
      → {s t : ProjectResolver W} → Served s t
      → P s
      → P t
  Served-invariant P each started h = h
  Served-invariant P each (after run step) h = each _ _ step (Served-invariant P each run h)

module _ {J W : Type 0} (gjson : Gjson J) (send : Transport W) (platform : Platform W) {Q : Type 0}
    (codec : Codec Q) (runtime : Runtime W) where
  mutating_server-route :
      (port : ℕ) (client : Client W) (path : String) (handler : Handler W)
      → Dict.lookup path (mutating_server gjson send platform codec runtime port client).routes
        ≡ some handler
      → handler ≡ serve_admit_func codec client runtime
  unfolding mutating_server admit_func_handler
  mutating_server-route port client path handler h =
      Dict.lookup-singleton path "/mutate" handler _ h

  module _ (port : ℕ) (client : Client W) (cluster : String) (dir : Directory)
      (serves : Serves client runtime cluster dir) where
    Serving-Agrees :
        (s t : ProjectResolver W)
        → Serving (mutating_server gjson send platform codec runtime port client) s t
        → Agrees cluster dir s
        → Agrees cluster dir t
    Serving-Agrees _ _ (handled path handler found req s) h =
        rw (mutating_server-route port client path handler found)
          (serve_admit_func-Agrees codec client runtime cluster dir serves req (exchange_of s) h)
    Serving-Agrees _ _ (elsewhere w s) h = record { same_cluster = h.same_cluster; fresh = h.fresh }

empty_cache-IsFresh : (dir : Directory) → IsFresh dir empty_cache
unfolding projects_of project_id_of Dict.lookup
empty_cache-IsFresh dir = record { users = λ user. inl refl; namespaces = λ ns. inl refl }

module _ {J W : Type 0} (gjson : Gjson J) (send : Transport W) (platform : Platform W) {Q : Type 0}
    (codec : Codec Q) (runtime : Runtime W) (port : ℕ) (url cluster token : String) (disable : Bool)
    (dir : Directory) (w : W) (t : ProjectResolver W) where
  -- The client of the webhook.
  abbrev pub client_of : Client W
  client_of = (new_project_resolver gjson send platform url cluster token disable w).0

  -- The webhook has come to `t` since its start.
  abbrev pub IsReached : Type 0
  IsReached =
      Served (mutating_server gjson send platform codec runtime port client_of)
        (new_project_resolver gjson send platform url cluster token disable w).1 t

  -- Rancher's answers keep showing the directory, and OPA answers.
  abbrev pub IsPublished : Type 0
  IsPublished =
      Publishes gjson send (record { server_url = url; token = token }) runtime cluster dir

  pub IsReached-IsFresh :
      IsPublished → IsReached → Serves client_of runtime t.cluster_id dir × IsFresh dir t.cache
  unfolding new_project_resolver
  IsReached-IsFresh published run =
      let settings : Settings = record { server_url = url; token = token } in
      let client = default_client gjson send settings in
      let serves = default_client-Serves gjson send settings runtime cluster dir published in
      let agrees =
        Served-invariant (mutating_server gjson send platform codec runtime port client)
          (Agrees cluster dir)
          (Serving-Agrees gjson send platform codec runtime port client cluster dir serves) run
          (record { same_cluster = refl; fresh = empty_cache-IsFresh dir }) in
      (subst (λ c. Serves client runtime c dir) (sym agrees.same_cluster) serves, agrees.fresh)

  -- From its start, and after any sequence of requests and of changes elsewhere in which Rancher's
  -- answers keep showing one directory and OPA answers, the webhook still resolves every user to the
  -- projects of the directory that bind the user, and every namespace to the last project that lists
  -- it.
  pub Served_correct :
      (user ns : String)
      → IsPublished
      → IsReached
      → ((resolve_projects_by_user client_of runtime user t).0
          ≡ ok (memberships dir dir.projects user))
        × ((resolve_project_id_by_namespace client_of runtime ns t).0
            ≡ ok (
              id_or_empty (project_of dir dir.projects ns),
              not (project_id_of ns t.cache == ""),
            ))
  Served_correct user ns published run =
      let (here, fresh) = IsReached-IsFresh published run in
      (
        (resolve_projects_by_user_correct client_of runtime dir user t here fresh).0,
        (resolve_project_id_by_namespace_correct client_of runtime dir ns t here fresh).0,
      )
