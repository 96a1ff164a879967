-- ===== src/Routes/Quota.antt =====
-- The uploads of app/routers/candidates.py beside the quota of a plan (app/billing_guard.py).
use resume_screening_service.Common.{
  ℕ, suc, String, ◌≡◌, ◌≤◌, sym, subst, ap, ◌∙◌, true, false, Bool, Option, some, List, ◌∷◌, arith,
  get, select, nat_eq, length, ◌==◌, ◌&&◌, if◌then◌else◌,
}
use resume_screening_service.Common.Int.{ℤ, pos, negsuc, leb_ℤ}
use resume_screening_service.Errors.{ok}
use resume_screening_service.Models.{Uuid, Instant, Candidate, Plan, Subscription, plan_row}
use resume_screening_service.Services.{Bytes, Env}
use resume_screening_service.Session.{World, Database}
use resume_screening_service.Auth.{require_tenant}
use resume_screening_service.Billing.{
  count_candidates_this_period, current_period_start, subscription_of,
}
use resume_screening_service.BillingGuard.{active, check_plan, check_quota, enforce_quota}
use resume_screening_service.Routes.{Headers, upload_resume}
use resume_screening_service.Routes.Closed.{opened, upload_resume-passed}

below_of_not_reached : (q : ℤ) (n : ℕ) → leb_ℤ q (pos n) ≡ false → leb_ℤ (pos (suc n)) q ≡ true
below_of_not_reached (pos k) n h = ground arith
below_of_not_reached (negsuc k) n h = absurd (ground arith)

leb_mono : (q : ℤ) (m n : ℕ) → m ≤ n → leb_ℤ (pos n) q ≡ true → leb_ℤ (pos m) q ≡ true
leb_mono (pos k) m n le h = ground arith
leb_mono (negsuc k) m n le h = absurd (ground arith)

length_of_more :
    (b : Bool) (c : Candidate) (cs : List Candidate)
    → length (if b then c ∷ cs else cs) ≤ suc (length cs)
length_of_more true c cs = omega arith
length_of_more false c cs = omega arith

-- A new row adds one to the rows of the period, or none if it is older.
count-added :
    (c : Candidate) (cs : List Candidate) (t : Uuid) (start : Instant)
    → count_candidates_this_period (c ∷ cs) t start ≤ suc (count_candidates_this_period cs t start)
unfolding count_candidates_this_period select
count-added c cs t start =
    length_of_more (c.tenant_id == t && leb_ℤ start c.created_at) c
      (select (λ (x : Candidate). x.tenant_id == t && leb_ℤ start x.created_at) cs)

module _ (env : Env) where
  enforce_quota-paid :
      (t : Uuid) (w : World) (s : Subscription) (plan : Plan)
      → active (subscription_of t w.db.subscriptions) ≡ some s
      → get s.plan_id w.db.plans ≡ some plan
      → enforce_quota env t w ≡ (check_quota env w.db t s plan, w)
  unfolding enforce_quota check_plan
  enforce_quota-paid t w s plan paid found = ground arith

  check_quota-below :
      (t t' : Uuid) (db : Database) (s : Subscription) (plan : Plan) (q : ℤ) (start : Instant)
      → plan.monthly_resume_quota ≡ some q
      → current_period_start env s plan ≡ ok start
      → check_quota env db t s plan ≡ ok t'
      → leb_ℤ q (pos (count_candidates_this_period db.candidates t start)) ≡ false
  unfolding check_quota
  check_quota-below t t' db s plan q start limited period h = ground arith

  -- With requests one after another: when an upload of a tenant whose subscription is active
  -- returns, the rows of the tenant from the start of the period on are at most the quota of the
  -- plan, if the plan has one.
  pub upload_resume-quota :
      (h : Headers) (content_type : Option String) (file_bytes : Bytes) (w w' : World)
      (c : Candidate) (s : Subscription) (plan : Plan) (q : ℤ) (start : Instant)
      → upload_resume env h content_type file_bytes w ≡ (ok c, w')
      → let w1 = (require_tenant env h.authorization h.x_api_key (opened w)).1 in
        active (subscription_of c.tenant_id w1.db.subscriptions) ≡ some s
        → get s.plan_id w1.db.plans ≡ some plan
        → plan.monthly_resume_quota ≡ some q
        → current_period_start env s plan ≡ ok start
        → leb_ℤ (pos (count_candidates_this_period w'.saved.candidates c.tenant_id start)) q ≡ true
  upload_resume-quota h content_type file_bytes w w' c s plan q start run paid found limited
        period =
      let w1 = (require_tenant env h.authorization h.x_api_key (opened w)).1 in
      let t = c.tenant_id in
      let (who, gate, pdf, status, saved) =
        upload_resume-passed env h content_type file_bytes w w' c run in
      let same = enforce_quota-paid t w1 s plan paid found in
      let below =
        check_quota-below t t w1.db s plan q start limited period
          (sym (ap (λ o. o.0) same) ∙ gate) in
      let rows = saved ∙ ap (λ o. c ∷ o.1.db.candidates) same in
      subst (λ cs. leb_ℤ (pos (count_candidates_this_period cs t start)) q ≡ true) (sym rows)
        (leb_mono q (count_candidates_this_period (c ∷ w1.db.candidates) t start)
          (suc (count_candidates_this_period w1.db.candidates t start))
          (count-added c w1.db.candidates t start)
          (below_of_not_reached q (count_candidates_this_period w1.db.candidates t start) below))
