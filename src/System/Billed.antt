-- ===== src/System/Billed.antt =====
-- The commits of app/services/ranking.py and billing_service.py.
use mathlib.Core.List.{Memᴰ, append_assoc}
use resume_screening_service.Common.{
  ℕ, suc, String, Option, ◌≡◌, ap, sym, ◌∙◌, refl, true, none, some, List, [], ◌∷◌, ◌++◌, inl, inr,
  get, put, put-put, find, find-holds, find-Memᴰ, get_of_Memᴰ, eq_of_==, nat_eq, ◌==◌, Option-cases,
  string_eq,
}
use resume_screening_service.Common.Int.{ℤ}
use resume_screening_service.Common.Sort.Laws.{All, All-++}
use resume_screening_service.Errors.{Result, ok, raised, Result-cases}
use resume_screening_service.Models.{
  Uuid, Job, MatchResult, Subscription, plan_row, subscription_row,
}
use resume_screening_service.Schemas.{RankedCandidate, ScreeningResponse}
use resume_screening_service.Services.{Env, RazorpayResponse}
use resume_screening_service.Session.{World, Database, constraints_hold}
use resume_screening_service.Ranking.{Evaluation, rank_candidates_for_job}
use resume_screening_service.Ranking.Evaluate.{IsEvaluated}
use resume_screening_service.Ranking.Record.{Ranked, Recorded, ranked_candidate-fields}
use resume_screening_service.Ranking.Run.{Outcome, rank_candidates_for_job-Outcome}
use resume_screening_service.System.Moves.{Move, Moves, IsMatch, Moves-of_same, Moves-of_one}
use resume_screening_service.Routes.Closed.{opened}
use resume_screening_service.System.Accounts.{IsClean-opened}
use resume_screening_service.System.Behaves.{
  Behaves, Behaves-of_opened, Behaves-after_reads, Behaves-then_reads, Moves-commit, Moves-save,
}
use resume_screening_service.System.Reads.{read_rules}
use resume_screening_service.Embeddings.Tables.{KeepsTables-perform}
use resume_screening_service.Billing.{
  assign_subscription, create_subscription, subscription_of, apply_event, handle_webhook_event,
  period_end_after, status_of_event, WebhookEntity,
}
use resume_screening_service.Session.Laws.{distinct_subscriptions}

module _ (env : Env) (t : Uuid) (job : Job) (db : Database) where
  -- the rows that were added, and what they are matches of
  abbrev AddsMatches : List MatchResult → List MatchResult → Type 0
  AddsMatches before after =
      (ms : List MatchResult) × (after ≡ ms ++ before) × All (IsMatch t db) ms

  AddsMatches-cons :
      (m : MatchResult) (before after : List MatchResult)
      → IsMatch t db m
      → AddsMatches (m ∷ before) after
      → AddsMatches before after
  AddsMatches-cons m before after one (ms, e, all) = (
    ms ++ (m ∷ []),
    e ∙ sym (append_assoc ms (m ∷ []) before),
    All-++ (IsMatch t db) ms (m ∷ []) all (one, tt),
  )

  AddsMatches-of_Recorded :
      (rank : ℕ) (xs : List Evaluation) (rs : List RankedCandidate)
      (before after : List MatchResult)
      → Memᴰ job db.jobs
      → job.tenant_id ≡ t
      → All (IsEvaluated env t job db) xs
      → Ranked env rank xs rs
      → Recorded job rs before after
      → AddsMatches before after
  AddsMatches-of_Recorded rank _ _ before _ stored own all Ranked.end Recorded.end = ([], refl, tt)
  AddsMatches-of_Recorded rank _ _ before after stored own all
        (Ranked.next {x} {xs} {r} {rs} e ranked)
        (Recorded.next {m} of_job of_candidate _ _ _ more) =
      AddsMatches-cons m before after
        (record {
          candidate = x.candidate;
          job = job;
          candidate_stored = all.0.0.0;
          job_stored = stored;
          candidate_own = all.0.0.1;
          job_own = own;
          of_candidate = of_candidate ∙ sym (ranked_candidate-fields env rank x r e).0;
          of_job = of_job;
        })
        (AddsMatches-of_Recorded (suc rank) xs rs (m ∷ before) after stored own all.1 ranked more)

module _ (env : Env) (t : Uuid) (w : World) where
  pub Moves-rank_candidates_for_job :
      (job : Job) (top_k top_n : Option ℤ)
      → Memᴰ job w.saved.jobs
      → job.tenant_id ≡ t
      → Moves env.show_uuid t w.saved
          (rank_candidates_for_job env t job top_k top_n (opened w)).1.saved
  Moves-rank_candidates_for_job job top_k top_n stored own =
      pick (rank_candidates_for_job env t job top_k top_n (opened w))
        (rank_candidates_for_job-Outcome env t job top_k top_n (opened w))
    where
      pick :
          (o : Result ScreeningResponse × World)
          → Outcome env t job w.saved w.saved o
          → Moves env.show_uuid t w.saved o.1.saved
      pick (raised e, w') same = Moves-of_same env.show_uuid t w.saved w'.saved same
      pick (ok r, w') s =
          let (ms, added, all) =
            AddsMatches-of_Recorded env t job w.saved 1 s.evaluations r.ranked_candidates
              w.saved.match_results w'.saved.match_results stored own s.evaluated s.ranked
              s.recorded in
          Moves-of_one env.show_uuid t w.saved w'.saved
            (Move.matches_added ms all
              (s.kept ∙ ap (λ xs. record w.saved { match_results = xs }) added))
            s.consistent

module _ (env : Env) where
  -- the subscription of the tenant, changed or new
  Moves-assign_subscription :
      (t plan_id : Uuid) (response : RazorpayResponse) (w : World)
      → constraints_hold w.saved ≡ true
      → Moves env.show_uuid t w.saved
          (assign_subscription env t plan_id response (opened w)).1.saved
  unfolding assign_subscription find
  Moves-assign_subscription t plan_id response w h =
      elim (Option-cases (subscription_of t w.saved.subscriptions)) [
        | inr (s, found) ↦
            let s' = record s {
              plan_id = plan_id;
              status = response.status;
              razorpay_subscription_id = response.id;
            } in
            let mine = λ (x : Subscription). x.tenant_id == t in
            let stored = find-Memᴰ mine w.saved.subscriptions s found in
            let own =
              eq_of_== ⦃e = nat_eq⦄ s.tenant_id t (find-holds mine w.saved.subscriptions s found) in
            let by_id =
              get_of_Memᴰ ⦃r = subscription_row⦄ s w.saved.subscriptions
                (distinct_subscriptions w.saved h) stored in
            rw found (
              Moves-commit env t (λ db. record db { subscriptions = put s' db.subscriptions }) s'
                (opened w) (IsClean-opened w h) (Move.subscription_changed s' s by_id own own refl))
        | inl missing ↦
            let s' : Subscription = record {
              id = env.uuid4 w.draws;
              tenant_id = t;
              plan_id = plan_id;
              status = response.status;
              razorpay_subscription_id = response.id;
              current_period_end = none;
              created_at = env.now;
            } in
            rw missing (
              Moves-commit env t (λ db. record db { subscriptions = s' ∷ db.subscriptions }) s'
                (record (opened w) { draws = suc w.draws }) (record { clean = refl; holds = h })
                (Move.subscription_added s' refl refl))
      ]

  Behaves-assign_subscription :
      (t plan_id : Uuid) (response : RazorpayResponse)
      → Behaves env t (assign_subscription env t plan_id response)
  Behaves-assign_subscription t plan_id response =
      Behaves-of_opened env t (assign_subscription env t plan_id response)
        (Moves-assign_subscription t plan_id response)

  pub Behaves-create_subscription :
      (t plan_id : Uuid) → Behaves env t (create_subscription env t plan_id)
  unfolding create_subscription
  Behaves-create_subscription t plan_id =
      search
        (
          Behaves-after_reads, Behaves-then_reads, read_rules, KeepsTables-perform,
          Behaves-assign_subscription,
        )
        depth 12

  -- the two changes of an event are one
  Moves-apply_event :
      (event : String) (entity : WebhookEntity) (status : String) (s : Subscription) (w : World)
      → get s.id w.saved.subscriptions ≡ some s
      → Moves env.show_uuid s.tenant_id w.saved
          (apply_event event entity status s (opened w)).1.saved
  unfolding apply_event
  Moves-apply_event event entity status s w by_id =
      elim (Result-cases (period_end_after event entity s)) [
        | inr (e, failed) ↦ rw failed Moves.here
        | inl (end, computed) ↦
            let once = record s { status = status } in
            let twice = record s { status = status; current_period_end = end } in
            rw computed (
              Moves-save env s.tenant_id
                (record w.saved { subscriptions = put twice (put once w.saved.subscriptions) })
                (opened w)
                (Move.subscription_changed twice s by_id refl refl (
                  ap (λ xs. record w.saved { subscriptions = xs })
                    (put-put ⦃r = subscription_row⦄ twice once w.saved.subscriptions refl))))
      ]

  pub Moves-handle_webhook_event :
      (event : String) (payload : Option WebhookEntity) (w : World)
      → constraints_hold w.saved ≡ true
      → (t : Uuid) × Moves env.show_uuid t w.saved
          (handle_webhook_event event payload (opened w)).1.saved
  unfolding handle_webhook_event find
  Moves-handle_webhook_event event none w h = elim (Option-cases (status_of_event event)) [
    | inl ignored ↦ (0, rw (handle_webhook_event, ignored) Moves.here)
    | inr (status, tracked) ↦ (0, rw (handle_webhook_event, tracked) Moves.here)
  ]
  Moves-handle_webhook_event event (some entity) w h = elim (Option-cases (status_of_event event)) [
    | inl ignored ↦ (0, rw (handle_webhook_event, ignored) Moves.here)
    | inr (status, tracked) ↦
        let wanted = λ (x : Subscription). x.razorpay_subscription_id == entity.id in
        elim (Option-cases (find wanted w.saved.subscriptions)) [
          | inl missing ↦ (0, rw (handle_webhook_event, tracked, missing) Moves.here)
          | inr (s, found) ↦
              let stored = find-Memᴰ wanted w.saved.subscriptions s found in
              let by_id =
                get_of_Memᴰ ⦃r = subscription_row⦄ s w.saved.subscriptions
                  (distinct_subscriptions w.saved h) stored in
              (
                s.tenant_id,
                rw (handle_webhook_event, tracked, found)
                    (Moves-apply_event event entity status s w by_id),
              )
        ]
  ]
