-- ===== src/System/Histories.antt =====
-- The service (app/main.py and app/worker.py) refines the contract of its tables.
use resume_screening_service.Common.{List, [], ◌∷◌, ◌≡◌, inl, inr, true}
use resume_screening_service.Models.{Uuid, Instant}
use resume_screening_service.Services.{Env, at}
use resume_screening_service.Session.{World, constraints_hold}
use resume_screening_service.Routes.{Headers}
use resume_screening_service.System.{Request, TenantRequest, route, serve, serve_all, tenant_route}
use resume_screening_service.System.Moves.{
  Moves, History, Moves-of_same, Moves-consistent, History-trans, History-Moves,
}
use resume_screening_service.System.Serves.{Serves}
use resume_screening_service.System.Starts.{Serves-in_session, Starts-then_reads}
use resume_screening_service.System.Reads.{read_rules}
use resume_screening_service.System.Requests.{tenant_route-ActsFor}
use resume_screening_service.System.Operators.{
  Serves-admin_route, Starts-register, Starts-login, Starts-google_auth, Serves-webhook,
}
use resume_screening_service.System.Deliveries.{Serves-handle_message}

module _ (env : Env) where
  Serves-tenant_route : (h : Headers) (r : TenantRequest) → Serves env (tenant_route env h r)
  Serves-tenant_route h r = record {
    moves = λ w held. elim (tenant_route-ActsFor env h r w held) [
      | inl same ↦ (0, Moves-of_same env.show_uuid 0 w.saved _ same)
      | inr (t, _, moves) ↦ (t, moves)
    ];
  }

  Serves-route : (r : Request) → Serves env (route env r)
  unfolding route
  Serves-route (Request.by_tenant h r) = Serves-tenant_route h r
  Serves-route (Request.by_operator c r) = Serves-admin_route env c r
  Serves-route (Request.register email password) =
      search (Serves-in_session, Starts-then_reads, read_rules, Starts-register) depth 9
  Serves-route (Request.login email password) =
      search (Serves-in_session, Starts-then_reads, read_rules, Starts-login) depth 9
  Serves-route (Request.google_auth token) =
      search (Serves-in_session, Starts-then_reads, read_rules, Starts-google_auth) depth 9
  Serves-route (Request.webhook body signature payload) = Serves-webhook env body signature payload
  Serves-route (Request.deliver m) = Serves-handle_message env m

  -- From consistent tables, whatever arrives at the service, what it commits is some commits of
  -- the contract, each of rows of one tenant.
  pub serve-Moves :
      (r : Request) (w : World)
      → constraints_hold w.saved ≡ true
      → (t : Uuid) × Moves env.show_uuid t w.saved (serve env r w).saved
  unfolding serve
  serve-Moves r w held = (Serves-route r).moves w held

-- So is every sequence of requests, webhooks and messages, each at its instant.
pub serve_all-History :
    (env : Env) (rs : List (Instant × Request)) (w : World)
    → constraints_hold w.saved ≡ true
    → History env.show_uuid w.saved (serve_all env rs w).saved
unfolding serve_all
serve_all-History env [] w held = History.nothing
serve_all-History env ((now, r) ∷ rs) w held =
    let w1 = serve (at env now) r w in
    let (t, moves) = serve-Moves (at env now) r w held in
    let kept = Moves-consistent env.show_uuid t w.saved w1.saved held moves in
    History-trans env.show_uuid w.saved w1.saved (serve_all env rs w1).saved
      (History-Moves env.show_uuid t w.saved w1.saved moves) (serve_all-History env rs w1 kept)
