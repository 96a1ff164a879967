-- ===== src/System/Isolation.antt =====
-- The tenants of app/models/db.py are isolated: what the contract of the tables lets a commit change.
use resume_screening_service.Common.{
  String, Option, some, List, ◌∷◌, ◌≡◌, ◌≢◌, inl, inr, sym, ap, refl, true, false, select,
  select-put, get, put, ◌==◌, nat_eq, eq_of_==, Row, find, Bool-cases, ◌∙◌,
}
use resume_screening_service.Errors.{ok}
use resume_screening_service.Models.{
  Uuid, Tenant, ApiKey, Candidate, Job, Subscription, tenant_row, api_key_row, candidate_row,
  subscription_row,
}
use resume_screening_service.Services.{Env}
use resume_screening_service.Session.{World, Database, constraints_hold}
use resume_screening_service.Auth.{require_tenant}
use resume_screening_service.Routes.{Headers}
use resume_screening_service.System.{TenantRequest, Request, serve, route}
use resume_screening_service.System.Moves.{Move, Moves}
use resume_screening_service.Routes.Closed.{opened}
use resume_screening_service.System.Requests.{tenant_route-ActsFor}

-- The rows of a tenant, in the order of a scan.
pub record TenantRows : Type 0 where
  pub account : Option Tenant
  pub api_keys : List ApiKey
  pub candidates : List Candidate
  pub jobs : List Job
  pub subscriptions : List Subscription

pub rows_of : Uuid → Database → TenantRows
rows_of u db = record {
  account = get u db.tenants;
  api_keys = select (λ (k : ApiKey). k.tenant_id == u) db.api_keys;
  candidates = select (λ (c : Candidate). c.tenant_id == u) db.candidates;
  jobs = select (λ (j : Job). j.tenant_id == u) db.jobs;
  subscriptions = select (λ (s : Subscription). s.tenant_id == u) db.subscriptions;
}

module _ {A : Type 0} (tenant_of : A → Uuid) (t u : Uuid) (other : t ≢ u) where
  not_of : (x : A) → tenant_of x ≡ t → (tenant_of x == u) ≡ false
  not_of x own = elim (Bool-cases (tenant_of x == u)) [
    | inl same ↦ absurd (other (sym own ∙ eq_of_== ⦃e = nat_eq⦄ (tenant_of x) u same))
    | inr ne ↦ ne
  ]

  select-own :
      (x : A) (xs : List A)
      → tenant_of x ≡ t
      → select (λ y. tenant_of y == u) (x ∷ xs) ≡ select (λ y. tenant_of y == u) xs
  unfolding select
  select-own x xs own = rw (not_of x own) refl

  -- a row that is changed was a row of the tenant, and is one
  select-changed :
      ⦃r : Row A⦄ (x old : A) (xs : List A)
      → get (r.key x) xs ≡ some old
      → tenant_of old ≡ t
      → tenant_of x ≡ t
      → select (λ y. tenant_of y == u) (put x xs) ≡ select (λ y. tenant_of y == u) xs
  select-changed x old xs found was own =
      select-put (λ y. tenant_of y == u) x old xs found (not_of x own) (not_of old was)

-- The rows of a tenant after a change of one column.
module _ (u : Uuid) (db db' : Database) where
  same_but_keys :
      (ks : List ApiKey)
      → db' ≡ record db { api_keys = ks }
      → select (λ (k : ApiKey). k.tenant_id == u) ks
        ≡ select (λ (k : ApiKey). k.tenant_id == u) db.api_keys
      → rows_of u db' ≡ rows_of u db
  unfolding rows_of
  same_but_keys ks e h = ap (rows_of u) e ∙ ap (λ xs. record (rows_of u db) { api_keys = xs }) h

  same_but_candidates :
      (cs : List Candidate)
      → db' ≡ record db { candidates = cs }
      → select (λ (c : Candidate). c.tenant_id == u) cs
        ≡ select (λ (c : Candidate). c.tenant_id == u) db.candidates
      → rows_of u db' ≡ rows_of u db
  unfolding rows_of
  same_but_candidates cs e h =
      ap (rows_of u) e ∙ ap (λ xs. record (rows_of u db) { candidates = xs }) h

  same_but_subscriptions :
      (ss : List Subscription)
      → db' ≡ record db { subscriptions = ss }
      → select (λ (s : Subscription). s.tenant_id == u) ss
        ≡ select (λ (s : Subscription). s.tenant_id == u) db.subscriptions
      → rows_of u db' ≡ rows_of u db
  unfolding rows_of
  same_but_subscriptions ss e h =
      ap (rows_of u) e ∙ ap (λ xs. record (rows_of u db) { subscriptions = xs }) h

module _ (show_uuid : Uuid → String) (t u : Uuid) (other : t ≢ u) where
  Move-isolated : (db db' : Database) → Move show_uuid t db db' → rows_of u db' ≡ rows_of u db
  unfolding rows_of get find
  Move-isolated db db' (Move.tenant_added a own _ e) =
      ap (rows_of u) e
      ∙ ap (λ x. record (rows_of u db) { account = x })
          (rw (not_of (λ (a : Tenant). a.id) t u other a own) refl)
  Move-isolated db db' (Move.key_added k own _ e) =
      same_but_keys u db db' _ e
        (select-own (λ (y : ApiKey). y.tenant_id) t u other k db.api_keys own)
  Move-isolated db db' (Move.key_changed k old found was own _ _ e) =
      same_but_keys u db db' _ e
        (select-changed (λ (y : ApiKey). y.tenant_id) t u other k old db.api_keys found was own)
  Move-isolated db db' (Move.candidate_added c own _ _ _ e) =
      same_but_candidates u db db' _ e
        (select-own (λ (y : Candidate). y.tenant_id) t u other c db.candidates own)
  Move-isolated db db' (Move.candidate_changed c old found was own _ _ _ _ e) =
      same_but_candidates u db db' _ e (
        select-changed (λ (y : Candidate). y.tenant_id) t u other c old db.candidates found was own)
  Move-isolated db db' (Move.job_added j own _ e) =
      ap (rows_of u) e
      ∙ ap (λ xs. record (rows_of u db) { jobs = xs })
          (select-own (λ (y : Job). y.tenant_id) t u other j db.jobs own)
  Move-isolated db db' (Move.matches_added ms _ e) = ap (rows_of u) e
  Move-isolated db db' (Move.plan_added p e) = ap (rows_of u) e
  Move-isolated db db' (Move.subscription_added s own e) =
      same_but_subscriptions u db db' _ e
        (select-own (λ (y : Subscription). y.tenant_id) t u other s db.subscriptions own)
  Move-isolated db db' (Move.subscription_changed s old found was own e) =
      same_but_subscriptions u db db' _ e (
        select-changed (λ (y : Subscription). y.tenant_id) t u other s old db.subscriptions found
          was own)

  Moves-isolated : (db db' : Database) → Moves show_uuid t db db' → rows_of u db' ≡ rows_of u db
  Moves-isolated db _ Moves.here = refl
  Moves-isolated db db' (Moves.next m one _) = Move-isolated _ db' one ∙ Moves-isolated db _ m

-- Whatever a request of one tenant does, it leaves the account, the keys, the candidates, the jobs
-- and the subscription of every other tenant as they are. A request that is authenticated as no
-- tenant leaves those of all tenants.
pub serve-isolated :
    (env : Env) (h : Headers) (r : TenantRequest) (u : Uuid) (w : World)
    → constraints_hold w.saved ≡ true
    → (require_tenant env h.authorization h.x_api_key (opened w)).0 ≢ ok u
    → rows_of u (serve env (Request.by_tenant h r) w).saved ≡ rows_of u w.saved
unfolding serve route
serve-isolated env h r u w held not_u = elim (tenant_route-ActsFor env h r w held) [
  | inl same ↦ ap (rows_of u) same
  | inr (t, is_t, moves) ↦
      Moves-isolated env.show_uuid t u (λ same. not_u (is_t ∙ ap ok same)) w.saved _ moves
]
