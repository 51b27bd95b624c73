-- ===== src/Server/Guarded.antt =====
-- Which requests reach the handlers behind `AuthMiddleware` and `AdminMiddleware` of main.go's routes.
use goshorty.Prelude.{
  String, ◌≡◌, refl, true, false, Option, none, some, List, [], ◌∷◌, Result, ok, err, arith,
  Option-cases, inl, inr, str_eq,
}
use goshorty.Models.{role_admin}
use goshorty.Auth.{Denial, admin_required, Session, auth_middleware, admin_middleware}
use goshorty.Handlers.{Response}
use goshorty.Server.{
  Action, Guard, limited, authenticated, admin_only, metrics_token, Route, App, Request, Chance,
  ServerState,
}
use goshorty.Server.Routes.{
  routes, find_route, is_public, is_administrative, needs_session, needs_admin, guarded_route,
}
use goshorty.Server.Pipeline.{
  denial_response, no_session, run_guards, dispatch, screen, handle_request, serve,
}

-- What a request is answered that stops before its handler: at a middleware before the routes, or here.
abbrev pub or_else : Response → Option Response → Response
or_else late none = late
or_else late (some early) = early

module _ {S U : Type 0} (app : App S U) (chance : Chance) (req : Request) where
  abbrev pub session_of_request : ServerState S U → Result Denial Session
  session_of_request state =
      auth_middleware app.base64 app.claims_json app.sign_bytes app.tokens chance.token_now
        (λ id. app.users.get_user_by_id id state.accounts) req.authorization

  abbrev pub route_of_request : Option Route
  route_of_request =
      find_route req.method req.full_path (routes app.config.security.register_limit_per_hour)

  refused_guards :
      (api_version : String) (action : Action) (guards : List Guard) (state : ServerState S U)
      (denial : Denial)
      → needs_session guards ≡ true
      → session_of_request state ≡ err denial
      → run_guards app chance req api_version action guards no_session none state
        ≡ (denial_response denial, none, state)
  unfolding run_guards
  refused_guards api_version action [] state denial h e = absurd (ground arith)
  refused_guards api_version action (limited k l w ∷ guards) state denial h e =
      absurd (ground arith)
  refused_guards api_version action (admin_only ∷ guards) state denial h e = absurd (ground arith)
  refused_guards api_version action (metrics_token ∷ guards) state denial h e =
      absurd (ground arith)
  refused_guards api_version action (authenticated ∷ guards) state denial h e =
      rw (run_guards, e) refl

  -- A request for anything but the public routes that `AuthMiddleware` refuses is answered with its
  -- denial (unless CORS or the body limit answers before), and changes no link, no account and no
  -- limiter window.
  pub serve-unauthenticated :
      (state : ServerState S U) (r : Route) (denial : Denial)
      → route_of_request ≡ some r
      → is_public r.action ≡ false
      → session_of_request state ≡ err denial
      → let (reply, state') = serve app chance req state in
        (reply.response ≡ or_else (denial_response denial) (screen app chance req))
        × (state'.links ≡ state.links)
        × (state'.accounts ≡ state.accounts)
        × (state'.limits ≡ state.limits)
  unfolding serve handle_request dispatch
  serve-unauthenticated state r denial found private_ refused =
      let guarded =
        guarded_route app.config.security.register_limit_per_hour req.method req.full_path r
          found in
      let stopped =
        refused_guards r.api_version r.action r.guards state denial (ground arith) refused in
      elim (Option-cases (screen app chance req)) [
        | inr (early, e) ↦ rw (serve, handle_request, e) (refl, refl, refl, refl)
        | inl e ↦ rw (serve, handle_request, e, dispatch, found, stopped) (refl, refl, refl, refl)
      ]

  forbidden_guards :
      (api_version : String) (action : Action) (guards : List Guard) (state : ServerState S U)
      (session : Session)
      → needs_admin guards ≡ true
      → session_of_request state ≡ ok session
      → str_eq session.role role_admin ≡ false
      → run_guards app chance req api_version action guards no_session none state
        ≡ (denial_response admin_required, none, state)
  unfolding run_guards admin_middleware
  forbidden_guards api_version action [] state session h e n = absurd (ground arith)
  forbidden_guards api_version action (limited k l w ∷ guards) state session h e n =
      absurd (ground arith)
  forbidden_guards api_version action (admin_only ∷ guards) state session h e n =
      absurd (ground arith)
  forbidden_guards api_version action (metrics_token ∷ guards) state session h e n =
      absurd (ground arith)
  forbidden_guards api_version action (authenticated ∷ []) state session h e n =
      absurd (ground arith)
  forbidden_guards api_version action (authenticated ∷ limited k l w ∷ gs) state session h e n =
      absurd (ground arith)
  forbidden_guards api_version action (authenticated ∷ authenticated ∷ gs) state session h e n =
      absurd (ground arith)
  forbidden_guards api_version action (authenticated ∷ metrics_token ∷ gs) state session h e n =
      absurd (ground arith)
  forbidden_guards api_version action (authenticated ∷ admin_only ∷ gs) state session h e n =
      rw (run_guards, e, admin_middleware, n) refl

  -- A request for an administrators' route with the session of anyone else is answered 403 (unless CORS
  -- or the body limit answers before), and changes no link, no account and no limiter window.
  pub serve-forbidden :
      (state : ServerState S U) (r : Route) (session : Session)
      → route_of_request ≡ some r
      → is_administrative r.action ≡ true
      → session_of_request state ≡ ok session
      → str_eq session.role role_admin ≡ false
      → let (reply, state') = serve app chance req state in
        (reply.response ≡ or_else (denial_response admin_required) (screen app chance req))
        × (state'.links ≡ state.links)
        × (state'.accounts ≡ state.accounts)
        × (state'.limits ≡ state.limits)
  unfolding serve handle_request dispatch
  serve-forbidden state r session found administrative known other =
      let guarded =
        guarded_route app.config.security.register_limit_per_hour req.method req.full_path r
          found in
      let stopped =
        forbidden_guards r.api_version r.action r.guards state session (ground arith) known other in
      elim (Option-cases (screen app chance req)) [
        | inr (early, e) ↦ rw (serve, handle_request, e) (refl, refl, refl, refl)
        | inl e ↦ rw (serve, handle_request, e, dispatch, found, stopped) (refl, refl, refl, refl)
      ]
