-- ===== src/System/Operators.antt =====
-- The routes of app/routers/admin.py and auth.py and the webhook of billing.py beside the contract
-- of the tables.
use resume_screening_service.Common.{String, Option, none, some}
use resume_screening_service.Errors.{Result}
use resume_screening_service.Models.{Uuid}
use resume_screening_service.Schemas.{PlanCreate}
use resume_screening_service.Services.{Bytes, Env}
use resume_screening_service.Embeddings.Tables.{KeepsTables}
use resume_screening_service.AdminAuth.{Credentials}
use resume_screening_service.Admin
use resume_screening_service.AuthRoutes
use resume_screening_service.Registration.{
  register_with_password, find_or_add_google, register_or_login_with_google,
}
use resume_screening_service.Billing.{WebhookEntity, handle_webhook_event}
use resume_screening_service.Routes
use resume_screening_service.Routes.{WebhookPayload}
use resume_screening_service.System.{AdminRequest, operate, admin_route}
use resume_screening_service.System.Reads.{
  read_rules, KeepsTables-authenticate_with_password, KeepsTables-lift,
}
use resume_screening_service.System.Serves.{Serves, Serves-after_reads}
use resume_screening_service.System.Starts.{
  Starts, Starts-then_reads, Starts-after_lift, Starts-after_or_raise, Starts-after_raise_if,
  Starts-of_reads, Starts-catch, Serves-in_session,
}
use resume_screening_service.System.Accounts.{
  Moves-create_tenant, Moves-create_api_key, Moves-revoke_api_key, Moves-create_plan,
  Moves-register_with_password, Moves-find_or_add_google,
}
use resume_screening_service.System.Billed.{Moves-handle_webhook_event}

KeepsTables-get_tenant_usage : (env : Env) (t : Uuid) → KeepsTables (Admin.get_tenant_usage env t)
unfolding Admin.get_tenant_usage
KeepsTables-get_tenant_usage env t = search (read_rules) depth 12

KeepsTables-get_tenant : (t : Uuid) → KeepsTables (Admin.get_tenant t)
unfolding Admin.get_tenant
KeepsTables-get_tenant t = search (read_rules) depth 9

KeepsTables-list_subscriptions : (o : Option Uuid) → KeepsTables (Admin.list_subscriptions o)
unfolding Admin.list_subscriptions
KeepsTables-list_subscriptions none = search (read_rules) depth 9
KeepsTables-list_subscriptions (some t) = search (read_rules) depth 9

module _ (env : Env) where
  Starts-create_tenant : (name : String) → Starts env (Admin.create_tenant env name)
  Starts-create_tenant name = record {
    serves = record { moves = λ w h. (env.uuid4 w.draws, Moves-create_tenant env w h name) };
  }

  Starts-create_api_key : (t : Uuid) → Starts env (Admin.create_api_key env t)
  Starts-create_api_key t = record {
    serves = record { moves = λ w h. (t, Moves-create_api_key env w h t) };
  }

  Starts-revoke_api_key : (k : Uuid) → Starts env (Admin.revoke_api_key env k)
  Starts-revoke_api_key k = record {
    serves = record { moves = λ w h. Moves-revoke_api_key env w h k };
  }

  Starts-create_plan : (p : PlanCreate) → Starts env (Admin.create_plan env p)
  Starts-create_plan p = record {
    serves = record { moves = λ w h. (0, Moves-create_plan env w h 0 p) };
  }

  ruleset start_rules = (
    read_rules, Starts-then_reads, Starts-after_lift, Starts-after_or_raise, Starts-after_raise_if,
    Starts-of_reads, Starts-catch,
  )

  Starts-operate : (r : AdminRequest) → Starts env (operate env r)
  unfolding operate Admin.list_tenants Admin.list_api_keys Admin.list_plans
  Starts-operate (AdminRequest.list_tenants limit offset) = search (start_rules) depth 12
  Starts-operate (AdminRequest.create_tenant name) =
      search (start_rules, Starts-create_tenant) depth 12
  Starts-operate (AdminRequest.get_tenant id) =
      search (start_rules, KeepsTables-get_tenant) depth 12
  Starts-operate (AdminRequest.list_api_keys id) = search (start_rules) depth 12
  Starts-operate (AdminRequest.create_api_key id) =
      search (start_rules, Starts-create_api_key) depth 12
  Starts-operate (AdminRequest.revoke_api_key id) =
      search (start_rules, Starts-revoke_api_key) depth 12
  Starts-operate AdminRequest.list_plans = search (start_rules) depth 12
  Starts-operate (AdminRequest.create_plan p) = search (start_rules, Starts-create_plan) depth 12
  Starts-operate (AdminRequest.list_subscriptions id) =
      search (start_rules, KeepsTables-list_subscriptions) depth 12
  Starts-operate (AdminRequest.get_tenant_usage id) =
      search (start_rules, KeepsTables-get_tenant_usage) depth 12

  pub Serves-admin_route : (c : Credentials) (r : AdminRequest) → Serves env (admin_route env c r)
  unfolding admin_route
  Serves-admin_route c r =
      search (Serves-after_reads, KeepsTables-lift, Serves-in_session, Starts-operate) depth 9

  Starts-register_with_password :
      (email password : String) → Starts env (register_with_password env email password)
  Starts-register_with_password email password = record {
    serves = record { moves = λ w h. Moves-register_with_password env w h email password };
  }

  pub Starts-register :
      (email password : String) → Starts env (AuthRoutes.register env email password)
  unfolding AuthRoutes.register
  Starts-register email password = search (start_rules, Starts-register_with_password) depth 12

  pub Starts-login : (email password : String) → Starts env (AuthRoutes.login env email password)
  unfolding AuthRoutes.login
  Starts-login email password =
      search (start_rules, KeepsTables-authenticate_with_password) depth 12

  Starts-find_or_add_google : (sub email : String) → Starts env (find_or_add_google env sub email)
  Starts-find_or_add_google sub email = record {
    serves = record { moves = λ w h. Moves-find_or_add_google env w h sub email };
  }

  Starts-register_or_login_with_google :
      (token : String) → Starts env (register_or_login_with_google env token)
  unfolding register_or_login_with_google
  Starts-register_or_login_with_google token =
      search (start_rules, Starts-find_or_add_google) depth 12

  pub Starts-google_auth : (token : String) → Starts env (AuthRoutes.google_auth env token)
  unfolding AuthRoutes.google_auth
  Starts-google_auth token = search (start_rules, Starts-register_or_login_with_google) depth 12

  Starts-handle_webhook_event :
      (event : String) (entity : Option WebhookEntity)
      → Starts env (handle_webhook_event event entity)
  Starts-handle_webhook_event event entity = record {
    serves = record { moves = λ w h. Moves-handle_webhook_event env event entity w h };
  }

  pub Serves-webhook :
      (body : Bytes) (signature : Option String) (payload : Result WebhookPayload)
      → Serves env (Routes.webhook env body signature payload)
  unfolding Routes.webhook
  Serves-webhook body signature payload =
      search (start_rules, Serves-in_session, Starts-handle_webhook_event) depth 16
