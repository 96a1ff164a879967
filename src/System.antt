-- ===== src/System.antt =====
-- The service as its clients see it: the routes that app/main.py includes and the messages that
-- app/worker.py receives, each as a step of the tables.
pub mod Consistent
pub mod Operations
pub mod Moves
pub mod Behaves
pub mod Reads
pub mod Accounts
pub mod Screening
pub mod Billed
pub mod Serves
pub mod Starts
pub mod Tenants
pub mod Services
pub mod Requests
pub mod Operators
pub mod Deliveries
pub mod Histories
pub mod Isolation
pub mod Matches
pub mod Invariant
pub mod Keeps
pub mod Rows
pub mod Revocation
pub mod Delivered
use resume_screening_service.Common.{ℕ, String, Option, none, some, List, [], ◌∷◌, ⊤}
use resume_screening_service.Common.Int.{ℤ}
use resume_screening_service.Errors.{Result}
use resume_screening_service.Models.{Uuid, Instant}
use resume_screening_service.Schemas.{CandidateCreate, JobCreate, ScreeningRequest, PlanCreate}
use resume_screening_service.Services.{Bytes, Env, at}
use resume_screening_service.Session.{World, Action, pure, lift, in_session, ◌>>=◌, ◌>>◌}
use resume_screening_service.AdminAuth.{Credentials, require_admin}
use resume_screening_service.Routes
use resume_screening_service.Routes.{Headers, WebhookPayload}
use resume_screening_service.AuthRoutes
use resume_screening_service.Admin
use resume_screening_service.Worker.{Message, handle_message}

-- The requests of app/routers/candidates.py, jobs.py, screening.py and `subscribe` of billing.py.
pub data TenantRequest : Type 0 where
  create_candidate : CandidateCreate → TenantRequest
  upload_resume : Option String → Bytes → TenantRequest
  list_candidates : TenantRequest
  get_candidate : Uuid → TenantRequest
  create_job : JobCreate → TenantRequest
  list_jobs : TenantRequest
  get_job : Uuid → TenantRequest
  rank_candidates : ScreeningRequest → TenantRequest
  rank_candidates_by_id : Uuid → Option ℤ → Option ℤ → TenantRequest
  subscribe : Uuid → TenantRequest

-- The requests of app/routers/admin.py.
pub data AdminRequest : Type 0 where
  list_tenants : ℕ → ℕ → AdminRequest
  create_tenant : String → AdminRequest
  get_tenant : Uuid → AdminRequest
  list_api_keys : Uuid → AdminRequest
  create_api_key : Uuid → AdminRequest
  revoke_api_key : Uuid → AdminRequest
  list_plans : AdminRequest
  create_plan : PlanCreate → AdminRequest
  list_subscriptions : Option Uuid → AdminRequest
  get_tenant_usage : Uuid → AdminRequest

-- What arrives at the service: a request, a webhook, or a message for the worker.
pub data Request : Type 0 where
  by_tenant : Headers → TenantRequest → Request
  by_operator : Credentials → AdminRequest → Request
  register : String → String → Request
  login : String → String → Request
  google_auth : String → Request
  webhook : Bytes → Option String → Result WebhookPayload → Request
  deliver : Message → Request

-- the response is of no further interest
abbrev pub forget {ℓ} : {A : Type ℓ} → Action A → Action ⊤
forget m = m >>= λ _. pure tt

module _ (env : Env) where
  unfoldable pub tenant_route : Headers → TenantRequest → Action ⊤
  tenant_route h (TenantRequest.create_candidate p) = forget (Routes.create_candidate env h p)
  tenant_route h (TenantRequest.upload_resume content_type file_bytes) =
      forget (Routes.upload_resume env h content_type file_bytes)
  tenant_route h TenantRequest.list_candidates = forget (Routes.list_candidates env h)
  tenant_route h (TenantRequest.get_candidate id) = forget (Routes.get_candidate env h id)
  tenant_route h (TenantRequest.create_job p) = forget (Routes.create_job env h p)
  tenant_route h TenantRequest.list_jobs = forget (Routes.list_jobs env h)
  tenant_route h (TenantRequest.get_job id) = forget (Routes.get_job env h id)
  tenant_route h (TenantRequest.rank_candidates p) = forget (Routes.rank_candidates env h p)
  tenant_route h (TenantRequest.rank_candidates_by_id id top_k top_n) =
      forget (Routes.rank_candidates_by_id env h id top_k top_n)
  tenant_route h (TenantRequest.subscribe plan_id) = forget (Routes.subscribe env h plan_id)

  -- the route behind `require_admin`
  unfoldable pub operate : AdminRequest → Action ⊤
  operate (AdminRequest.list_tenants limit offset) = forget (Admin.list_tenants limit offset)
  operate (AdminRequest.create_tenant name) = forget (Admin.create_tenant env name)
  operate (AdminRequest.get_tenant id) = forget (Admin.get_tenant id)
  operate (AdminRequest.list_api_keys id) = forget (Admin.list_api_keys id)
  operate (AdminRequest.create_api_key id) = forget (Admin.create_api_key env id)
  operate (AdminRequest.revoke_api_key id) = forget (Admin.revoke_api_key env id)
  operate AdminRequest.list_plans = forget Admin.list_plans
  operate (AdminRequest.create_plan p) = forget (Admin.create_plan env p)
  operate (AdminRequest.list_subscriptions id) = forget (Admin.list_subscriptions id)
  operate (AdminRequest.get_tenant_usage id) = forget (Admin.get_tenant_usage env id)

  -- The router's dependency runs before the session of the route is opened.
  unfoldable pub admin_route : Credentials → AdminRequest → Action ⊤
  unfolding operate
  admin_route c r = do lift (require_admin env c); in_session (operate r)

  unfoldable pub route : Request → Action ⊤
  unfolding tenant_route admin_route
  route (Request.by_tenant h r) = tenant_route h r
  route (Request.by_operator c r) = admin_route c r
  route (Request.register email password) =
      in_session (forget (AuthRoutes.register env email password))
  route (Request.login email password) = in_session (forget (AuthRoutes.login env email password))
  route (Request.google_auth token) = in_session (forget (AuthRoutes.google_auth env token))
  route (Request.webhook body signature payload) = Routes.webhook env body signature payload
  route (Request.deliver m) = handle_message env m

  -- the world after a request
  unfoldable pub serve : Request → World → World
  unfolding route
  serve r w = (route r w).1

-- The world after some requests, each at its instant.
unfoldable pub serve_all : Env → List (Instant × Request) → World → World
unfolding serve
serve_all env [] w = w
serve_all env ((now, r) ∷ rs) w = serve_all env rs (serve (at env now) r w)
