-- ===== src/Server/Reach.antt =====
-- The states that the server of main.go reaches, request by request.
use goshorty.Prelude.{
  ℕ, String, ◌≡◌, Option, none, some, List, [], ◌∷◌, arith, Option-cases, Result-cases, inl, inr,
}
use goshorty.Prelude.Int.{ℤ}
use goshorty.Models.{User}
use goshorty.Storage.{Storage, new_storage, cleanup_tick}
use goshorty.Storage.Invariant
use goshorty.UrlStore.Memory.{memory_store}
use goshorty.UrlService.Kept
use goshorty.Users.{Bcrypt, UserStorage, new_user_storage}
use goshorty.Users.Admins
use goshorty.Users.Reach
use goshorty.UserStore.Memory.{memory_users}
use goshorty.Handlers.Links.Kept as LinksKept
use goshorty.Handlers.Accounts.Kept as AccountsKept
use goshorty.Auth.{Session, auth_middleware, admin_middleware}
use goshorty.Limiter.{Decision, limit_route}
use goshorty.Observability.{new_http_metrics}
use goshorty.Server.{
  Action, login, register, current_user, change_password, revoke_sessions, create_link, link_info,
  delete_link, list_links, statistics, list_users, set_role, delete_user, redirect, health, ready,
  metrics, version, static_file, openapi, api_info, Guard, limited, authenticated, admin_only,
  metrics_token, App, Request, Chance, ServerState,
}
use goshorty.Server.Routes.{routes, find_route}
use goshorty.Server.Pipeline.{
  no_session, act, run_guards, dispatch, screen, handle_request, serve, bound, body,
}

module _ {S U : Type 0} (app : App S U) (P : S → Type 0) (Q : U → Type 0)
    (links_keep : Kept.Keeps app.urls P) (accounts_keep : AccountsKept.Keeps app.users Q)
    (chance : Chance) (req : Request) where
  abbrev Holds : ServerState S U → Type 0
  Holds state = P state.links × Q state.accounts

  act-Holds :
      (api_version : String) (session : Session) (action : Action) (state : ServerState S U)
      → Holds state
      → Holds (act app chance req api_version session action state).1
  unfolding act
  act-Holds api_version session login state h = h
  act-Holds api_version session register state h = (
    h.0,
    AccountsKept.register-Keeps app.users Q accounts_keep app.base64 app.claims_json app.sign_bytes
        app.tokens chance.user_draws chance.token_now chance.token_draws
        (bound app.bind_register (body app chance req)) state.accounts h.1,
  )
  act-Holds api_version session current_user state h = h
  act-Holds api_version session change_password state h = (
    h.0,
    AccountsKept.change_password-Keeps app.users Q accounts_keep chance.salt session
        (bound app.bind_password (body app chance req)) state.accounts state.accounts h.1,
  )
  act-Holds api_version session revoke_sessions state h =
      (h.0, AccountsKept.revoke_sessions-Keeps app.users Q accounts_keep session state.accounts h.1)
  act-Holds api_version session create_link state h = (
    LinksKept.create_short_url-Keeps app.urls P links_keep app.config app.parse_url chance.entropy
        (bound app.bind_shorten (body app chance req)) session.user_id state.links h.0,
    h.1,
  )
  act-Holds api_version session link_info state h = h
  act-Holds api_version session delete_link state h = (
    LinksKept.delete_url-Keeps app.urls P links_keep chance.now chance.later req.code
        session.user_id session.role state.links state.links h.0,
    h.1,
  )
  act-Holds api_version session list_links state h = h
  act-Holds api_version session statistics state h = h
  act-Holds api_version session list_users state h = h
  act-Holds api_version session set_role state h = (
    h.0,
    AccountsKept.update_user_role-Keeps app.users Q accounts_keep req.username
        (bound app.bind_role (body app chance req)) state.accounts h.1,
  )
  act-Holds api_version session delete_user state h = (
    h.0,
    AccountsKept.delete_user-Keeps app.users Q accounts_keep req.username state.accounts h.1,
  )
  act-Holds api_version session redirect state h =
      (LinksKept.redirect_link-Keeps app.urls P links_keep chance.now req.code state.links h.0, h.1)
  act-Holds api_version session health state h = h
  act-Holds api_version session ready state h = h
  act-Holds api_version session metrics state h = h
  act-Holds api_version session version state h = h
  act-Holds api_version session static_file state h = h
  act-Holds api_version session openapi state h = h
  act-Holds api_version session (api_info surface) state h = h

  run_guards-Holds :
      (api_version : String) (action : Action) (guards : List Guard) (session : Session)
      (rate : Option (ℤ × Decision)) (state : ServerState S U)
      → Holds state
      → Holds (run_guards app chance req api_version action guards session rate state).2
  unfolding run_guards
  run_guards-Holds api_version action [] session rate state h =
      act-Holds api_version session action state h
  run_guards-Holds api_version action (limited key_scope limit window ∷ guards) session rate state
        h =
      let (decision, limits) =
        limit_route app.visited key_scope limit window chance.now req.client_ip state.limits in
      let rest =
        run_guards-Holds api_version action guards session (some (limit, decision))
          (record state { limits = limits }) h in
      ground (arith, h, rest)
  run_guards-Holds api_version action (authenticated ∷ guards) session rate state h =
      elim (Result-cases (
        auth_middleware app.base64 app.claims_json app.sign_bytes app.tokens chance.token_now
          (λ id. app.users.get_user_by_id id state.accounts) req.authorization)) [
            | inr (denial, e) ↦ rw (run_guards, e) h
            | inl (session', e) ↦
                rw (run_guards, e)
                  (run_guards-Holds api_version action guards session' rate state h)
          ]
  run_guards-Holds api_version action (admin_only ∷ guards) session rate state h =
      elim (Result-cases (admin_middleware session)) [
        | inr (denial, e) ↦ rw (run_guards, e) h
        | inl (session', e) ↦
            rw (run_guards, e) (run_guards-Holds api_version action guards session' rate state h)
      ]
  run_guards-Holds api_version action (metrics_token ∷ guards) session rate state h =
      let rest = run_guards-Holds api_version action guards session rate state h in
      ground (arith, h, rest)

  dispatch-Holds : (state : ServerState S U) → Holds state → Holds (dispatch app chance req state).2
  unfolding dispatch
  dispatch-Holds state h =
      elim (Option-cases (
        find_route req.method req.full_path (routes app.config.security.register_limit_per_hour))) [
          | inl e ↦ rw (dispatch, e) h
          | inr (r, e) ↦
              rw (dispatch, e)
                (run_guards-Holds r.api_version r.action r.guards no_session none state h)
        ]

  pub serve-Holds : (state : ServerState S U) → Holds state → Holds (serve app chance req state).1
  unfolding serve handle_request
  serve-Holds state h = elim (Option-cases (screen app chance req)) [
    | inr (early, e) ↦ rw (serve, handle_request, e) h
    | inl e ↦ rw (serve, handle_request, e) (dispatch-Holds state h)
  ]

-- The in-memory stores keep their invariants.
memory_store-Keeps : Kept.Keeps memory_store Invariant.Inv
memory_store-Keeps = record {
  sets = λ now u s v. Invariant.Step-Inv (Invariant.sets now u) v;
  visits = λ now code s v. Invariant.Step-Inv (Invariant.visits now code) v;
  deletes = λ now code s v. Invariant.Step-Inv (Invariant.deletes code) v;
}

memory_users-Keeps : (bcrypt : Bcrypt) → AccountsKept.Keeps (memory_users bcrypt) Admins.Inv
memory_users-Keeps bcrypt = record {
  creates = λ d username password email us v.
      Admins.create_user-Inv bcrypt d.salt d.id_draws d.now username password email us v;
  changes = Admins.update_password-Inv bcrypt;
  revokes = Admins.revoke_tokens-Inv;
  promotes = Admins.update_user_role-Inv;
  deletes = Admins.delete_user-Inv;
}

module _ (app : App Storage UserStorage) (bcrypt : Bcrypt) (with_links : app.urls ≡ memory_store)
    (with_accounts : app.users ≡ memory_users bcrypt) where
  -- The server's states: fresh stores with the first administrator, then requests, each at its own times
  -- and draws, and ticks of the cleanup.
  pub data Reachable : ServerState Storage UserStorage → Type 0 where
    start :
        {us : UserStorage} (salt : ℕ) (draws : ℕ → ℕ) (now : ℤ) (blank : User)
        (admin_password admin_email : String)
        → new_user_storage bcrypt salt draws now blank admin_password admin_email ≡ some us
        → Reachable (record {
          links = new_storage;
          accounts = us;
          limits = [];
          http_metrics = new_http_metrics;
        })
    serves :
        {state : ServerState Storage UserStorage} (chance : Chance) (req : Request)
        → Reachable state
        → Reachable (serve app chance req state).1
    cleans :
        {state : ServerState Storage UserStorage} (now : ℤ)
        → Reachable state
        → Reachable (record state { links = cleanup_tick now state.links })

  -- Whatever requests the server has served, with the in-memory stores it has an administrator, no two
  -- users have one name, and each short code has at most one entry, filed under the code of its data.
  pub Reachable-Holds :
      {state : ServerState Storage UserStorage}
      → Reachable state
      → Invariant.Inv state.links × Admins.Inv state.accounts
  Reachable-Holds (start salt draws now blank admin_password admin_email e) = (
    Invariant.Reach-Inv Invariant.start,
    Reach.Reach-keeps_admin bcrypt (Reach.start salt draws now blank admin_password admin_email e),
  )
  Reachable-Holds (serves {state} chance req r) =
      serve-Holds app Invariant.Inv Admins.Inv (rw with_links memory_store-Keeps)
        (rw with_accounts (memory_users-Keeps bcrypt)) chance req state (Reachable-Holds r)
  Reachable-Holds (cleans now r) =
      let (links, accounts) = Reachable-Holds r in
      (Invariant.Step-Inv (Invariant.cleans now) links, accounts)
