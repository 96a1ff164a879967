-- ===== src/Routes/Closed.antt =====
-- `upload_resume` of app/routers/candidates.py and `webhook` of app/routers/billing.py: which
-- requests reach the services.
use resume_screening_service.Common.{
  String, ◌≡◌, ◌≢◌, refl, subst, option_is_iff, sym, ap, ◌∙◌, true, Option, none, some, arith, inl,
  inr, option_is, option_or, suc, ◌≤◌, ◌∷◌, List, select, ==-refl, nat_eq, string_eq, Bool-cases,
}
use resume_screening_service.Errors.{Result, ok, Result-cases}
use resume_screening_service.Models.{Uuid, Candidate, pending}
use resume_screening_service.Services.{Bytes, Env}
use resume_screening_service.Session.{World, Database}
use resume_screening_service.Auth.{require_tenant}
use resume_screening_service.Billing.{
  count_all_time_candidates, subscription_of, verify_webhook_signature,
}
use resume_screening_service.BillingGuard.{
  active, enforce_quota, check_free_tier, check_plan, check_quota,
}
use resume_screening_service.Candidates.{placeholder}
use resume_screening_service.Candidates.Enqueue.{enqueue_resume_upload-returns}
use resume_screening_service.Routes.{Headers, WebhookPayload, upload_body, upload_resume, webhook}

-- the request in its session: what the database has committed, and nothing else
abbrev pub opened : World → World
opened w = record w { db = w.saved }

module _ (env : Env) where
  -- A webhook whose signature is not verified, or whose body is no text, raises, whatever it says;
  -- nothing is committed, and no call is made.
  pub webhook-rejects :
      (raw_body : Bytes) (signature : Option String) (payload : Result WebhookPayload) (w : World)
      → verify_webhook_signature env raw_body (option_or signature "") ≢ ok true
      → ((webhook env raw_body signature payload w).0 ≢ ok tt)
        × ((webhook env raw_body signature payload w).1.saved ≡ w.saved)
        × ((webhook env raw_body signature payload w).1.calls ≡ w.calls)
  unfolding webhook
  webhook-rejects raw_body signature payload w refused =
      elim (Result-cases (verify_webhook_signature env raw_body (option_or signature ""))) [
        | inr (e, bad) ↦ ((λ h. absurd (ground arith)), ground arith, ground arith)
        | inl (b, good) ↦ elim (Bool-cases b) [
          | inl valid ↦ absurd (refused (good ∙ ap ok valid))
          | inr invalid ↦ ((λ h. absurd (ground arith)), ground arith, ground arith)
        ]
      ]

  enforce_quota-same : (t t' : Uuid) (w : World) → (enforce_quota env t w).0 ≡ ok t' → t' ≡ t
  unfolding enforce_quota check_free_tier check_plan check_quota
  enforce_quota-same t t' w h = ground arith

  upload_body-returns :
      (content_type : Option String) (file_bytes : Bytes) (t : Uuid) (w w' : World) (c : Candidate)
      → upload_body env content_type file_bytes t w ≡ (ok c, w')
      → (option_is content_type "application/pdf" ≡ true)
        × (c ≡ placeholder env (env.uuid4 w.draws) t)
        × (w'.saved ≡ record w.db { candidates = c ∷ w.db.candidates })
  unfolding upload_body
  upload_body-returns content_type file_bytes t w w' c h =
      elim (Bool-cases (option_is content_type "application/pdf")) [
        | inr other ↦ absurd (ground arith)
        | inl pdf ↦
            let (row, saved) =
              enqueue_resume_upload-returns env t file_bytes w w' c (ground arith) in
            (pdf, row, saved)
      ]

  -- all that an upload that returns has passed and done
  pub upload_resume-passed :
      (h : Headers) (content_type : Option String) (file_bytes : Bytes) (w w' : World)
      (c : Candidate)
      → upload_resume env h content_type file_bytes w ≡ (ok c, w')
      → let (who, w1) = require_tenant env h.authorization h.x_api_key (opened w) in
        (who ≡ ok c.tenant_id)
        × ((enforce_quota env c.tenant_id w1).0 ≡ ok c.tenant_id)
        × (content_type ≡ some "application/pdf")
        × (c.status ≡ pending)
        × (w'.saved.candidates ≡ c ∷ (enforce_quota env c.tenant_id w1).1.db.candidates)
  unfolding upload_resume
  upload_resume-passed h content_type file_bytes w w' c run =
      let (who, w1) = require_tenant env h.authorization h.x_api_key (opened w) in
      elim (Result-cases who) [
        | inr (e, refused) ↦ absurd (ground arith)
        | inl (t, let_in) ↦ elim (Result-cases (enforce_quota env t w1).0) [
          | inr (e, refused) ↦ absurd (ground arith)
          | inl (t', passed) ↦
              let w2 = (enforce_quota env t w1).1 in
              let (o, w3) = upload_body env content_type file_bytes t' w2 in
              let returned : o ≡ ok c = ground arith in
              let closed : w'.saved ≡ w3.saved = ground arith in
              let (pdf, row, saved) =
                upload_body-returns content_type file_bytes t' w2 w3 c
                  (ap (λ x. (x, w3)) returned) in
              let tenant : t ≡ c.tenant_id =
                sym (ap (λ x. x.tenant_id) row ∙ enforce_quota-same t t' w1 passed) in
              let gate : t' ≡ c.tenant_id = sym (ap (λ x. x.tenant_id) row) in
              (
                let_in ∙ ap ok tenant,
                subst (λ u. (enforce_quota env u w1).0 ≡ ok c.tenant_id) tenant
                    (passed ∙ ap ok gate),
                (option_is_iff content_type "application/pdf").0 pdf,
                ap (λ x. x.status) row,
                ap (λ d. d.candidates) closed
                    ∙ ap (λ d. d.candidates) saved
                    ∙ ap (λ u. c ∷ (enforce_quota env u w1).1.db.candidates) tenant,
              )
        ]
      ]

  check_free_tier-below :
      (t t' : Uuid) (db : Database)
      → check_free_tier env db t ≡ ok t'
      → suc (count_all_time_candidates db.candidates t) ≤ env.settings.free_tier_resume_limit
  unfolding check_free_tier
  check_free_tier-below t t' db h = ground arith

  enforce_quota-free :
      (t : Uuid) (w : World)
      → active (subscription_of t w.db.subscriptions) ≡ none
      → enforce_quota env t w ≡ (check_free_tier env w.db t, w)
  unfolding enforce_quota
  enforce_quota-free t w free = rw free refl

  count-new :
      (c : Candidate) (cs : List Candidate)
      → count_all_time_candidates (c ∷ cs) c.tenant_id
        ≡ suc (count_all_time_candidates cs c.tenant_id)
  unfolding count_all_time_candidates select
  count-new c cs = rw (==-refl ⦃e = nat_eq⦄ c.tenant_id) refl

  -- A row is uploaded only for a PDF, as the tenant that the headers authenticate, and only if the
  -- gate lets that tenant through; the row that is returned is a pending row of that tenant.
  pub upload_resume-guarded :
      (h : Headers) (content_type : Option String) (file_bytes : Bytes) (w w' : World)
      (c : Candidate)
      → upload_resume env h content_type file_bytes w ≡ (ok c, w')
      → let (who, w1) = require_tenant env h.authorization h.x_api_key (opened w) in
        (who ≡ ok c.tenant_id)
        × ((enforce_quota env c.tenant_id w1).0 ≡ ok c.tenant_id)
        × (content_type ≡ some "application/pdf")
        × (c.status ≡ pending)
  upload_resume-guarded h content_type file_bytes w w' c run =
      let (who, gate, pdf, status, saved) =
        upload_resume-passed h content_type file_bytes w w' c run in
      (who, gate, pdf, status)

  -- With requests one after another, a tenant with no active subscription gets no more rows by an
  -- upload than the free tier allows: when an upload returns, its committed rows are at most the
  -- limit.
  pub upload_resume-free_tier :
      (h : Headers) (content_type : Option String) (file_bytes : Bytes) (w w' : World)
      (c : Candidate)
      → upload_resume env h content_type file_bytes w ≡ (ok c, w')
      → active (
          subscription_of c.tenant_id
            (require_tenant env h.authorization h.x_api_key (opened w)).1.db.subscriptions)
        ≡ none
      → count_all_time_candidates w'.saved.candidates c.tenant_id
        ≤ env.settings.free_tier_resume_limit
  upload_resume-free_tier h content_type file_bytes w w' c run free =
      let w1 = (require_tenant env h.authorization h.x_api_key (opened w)).1 in
      let (who, gate, pdf, status, saved) =
        upload_resume-passed h content_type file_bytes w w' c run in
      let same = enforce_quota-free c.tenant_id w1 free in
      let below =
        check_free_tier-below c.tenant_id c.tenant_id w1.db (sym (ap (λ o. o.0) same) ∙ gate) in
      let rows = saved ∙ ap (λ o. c ∷ o.1.db.candidates) same in
      subst (λ n. n ≤ env.settings.free_tier_resume_limit)
        (sym
          (ap (λ cs. count_all_time_candidates cs c.tenant_id) rows ∙ count-new c w1.db.candidates))
        below
