-- ===== src/Billing/Subscribe.antt =====
-- `create_subscription` of app/services/billing_service.py, by outcome.
use mathlib.Core.List.{Memᴰ}
use resume_screening_service.Common.{
  String, ◌≡◌, ◌≢◌, ◌⊎◌, ◌∷◌, refl, sym, true, none, some, arith, inl, inr, suc, find, find-Memᴰ,
  find-holds, get, get-put_ne, get_of_Memᴰ, put, put-Memᴰ, eq_of_==, nat_eq, ◌==◌, Bool-cases,
  Option-cases, if◌then◌else◌, subst,
}
use resume_screening_service.Errors.{Exn, integrity_error, Result, ok, raised}
use resume_screening_service.Models.{Uuid, Plan, Subscription, plan_row, subscription_row}
use resume_screening_service.Services.{
  Call, Env, RazorpayResponse, create_subscription as create_remote,
}
use resume_screening_service.Session.{World, Database, constraints_hold}
use resume_screening_service.Session.Laws.{distinct_subscriptions}
use resume_screening_service.Billing.{
  subscription_of, subscription_total_count, plan_not_found, assign_subscription,
  create_subscription,
}

module _ (t plan_id : Uuid) (response : RazorpayResponse) (w : World) where
  -- The subscription that is committed for a tenant: it has what Razorpay answered, and keeps its
  -- period if it was there before; nothing else is changed.
  pub record Assigned (s : Subscription) (w' : World) : Type 0 where
    pub of_tenant : s.tenant_id ≡ t
    pub of_plan : s.plan_id ≡ plan_id
    pub status : s.status ≡ response.status
    pub remote : s.razorpay_subscription_id ≡ response.id
    pub period :
        ((subscription_of t w.db.subscriptions ≡ none) × (s.current_period_end ≡ none))
        ⊎ ((old : Subscription) × (subscription_of t w.db.subscriptions ≡ some old)
            × (s.id ≡ old.id)
            × (s.current_period_end ≡ old.current_period_end))
    pub stored : Memᴰ s w'.db.subscriptions
    pub others : (id : Uuid) → s.id ≢ id → get id w'.db.subscriptions ≡ get id w.db.subscriptions
    pub kept : record w'.db { subscriptions = w.db.subscriptions } ≡ w.db
    pub consistent : constraints_hold w'.db ≡ true
    pub committed : w'.saved ≡ w'.db
    pub calls : w'.calls ≡ w.calls

  abbrev pub AssignedOrNot : Result Subscription × World → Type 0
  AssignedOrNot (ok s, w') = Assigned s w'
  AssignedOrNot (raised e, w') = (e ≡ integrity_error) × (w'.db ≡ w.saved) × (w'.saved ≡ w.saved)

module _ (env : Env) (t plan_id : Uuid) (response : RazorpayResponse) (w : World) where
  abbrev changed : Subscription → Subscription
  changed s = record s {
    plan_id = plan_id;
    status = response.status;
    razorpay_subscription_id = response.id;
  }

  abbrev new_row : Subscription
  new_row = record {
    id = env.uuid4 w.draws;
    tenant_id = t;
    plan_id = plan_id;
    status = response.status;
    razorpay_subscription_id = response.id;
    current_period_end = none;
    created_at = env.now;
  }

  -- the end of a session that has assigned a row
  abbrev closed : Database → Subscription → World → Result Subscription × World
  closed db s w1 =
      if constraints_hold db
      then (ok s, record w1 { db = db; saved = db })
      else (raised integrity_error, record w1 { db = w.saved })

  closed-AssignedOrNot :
      (db : Database) (s : Subscription) (w1 : World)
      → w1.saved ≡ w.saved
      → ((constraints_hold db ≡ true)
          → Assigned t plan_id response w s (record w1 { db = db; saved = db }))
      → AssignedOrNot t plan_id response w (closed db s w1)
  closed-AssignedOrNot db s w1 same kept = elim (Bool-cases (constraints_hold db)) [
    | inr broken ↦ rw broken (refl, refl, same)
    | inl holds ↦ rw holds (kept holds)
  ]

  assign_changed :
      (s : Subscription)
      → subscription_of t w.db.subscriptions ≡ some s
      → assign_subscription env t plan_id response w
        ≡ closed (record w.db { subscriptions = put (changed s) w.db.subscriptions }) (changed s) w
  unfolding assign_subscription
  assign_changed s found = ground arith

  assign_new :
      subscription_of t w.db.subscriptions ≡ none
      → assign_subscription env t plan_id response w
        ≡ closed
            (record w.db { subscriptions = new_row ∷ w.db.subscriptions })
            new_row
            (record w { draws = suc w.draws })
  unfolding assign_subscription
  assign_new missing = ground arith

  new_row_apart :
      (id : Uuid)
      → env.uuid4 w.draws ≢ id
      → get ⦃r = subscription_row⦄ id (new_row ∷ w.db.subscriptions) ≡ get id w.db.subscriptions
  unfolding get find
  new_row_apart id other = ground (arith, eq_of_== ⦃e = nat_eq⦄ (env.uuid4 w.draws) id)

  assign_subscription-AssignedOrNot :
      constraints_hold w.db ≡ true
      → AssignedOrNot t plan_id response w (assign_subscription env t plan_id response w)
  assign_subscription-AssignedOrNot h = elim (Option-cases (subscription_of t w.db.subscriptions)) [
    | inl missing ↦ subst (AssignedOrNot t plan_id response w) (sym (assign_new missing)) (
        closed-AssignedOrNot (record w.db { subscriptions = new_row ∷ w.db.subscriptions }) new_row
          (record w { draws = suc w.draws }) refl
          (λ holds. record {
            of_tenant = refl;
            of_plan = refl;
            status = refl;
            remote = refl;
            period = inl (missing, refl);
            stored = Memᴰ.head refl;
            others = new_row_apart;
            kept = refl;
            consistent = holds;
            committed = refl;
            calls = refl;
          }))
    | inr (s, found) ↦
        let mine = λ (x : Subscription). x.tenant_id == t in
        let by_id =
          get_of_Memᴰ ⦃r = subscription_row⦄ s w.db.subscriptions (distinct_subscriptions w.db h)
            (find-Memᴰ mine w.db.subscriptions s found) in
        subst (AssignedOrNot t plan_id response w) (sym (assign_changed s found)) (
          closed-AssignedOrNot (record w.db { subscriptions = put (changed s) w.db.subscriptions })
            (changed s) w refl
            (λ holds. record {
              of_tenant =
                  eq_of_== ⦃e = nat_eq⦄ s.tenant_id t (find-holds mine w.db.subscriptions s found);
              of_plan = refl;
              status = refl;
              remote = refl;
              period = inr (s, found, refl, refl);
              stored = put-Memᴰ ⦃r = subscription_row⦄ (changed s) s w.db.subscriptions by_id;
              others = λ id other.
                  get-put_ne ⦃r = subscription_row⦄ id (changed s) w.db.subscriptions other;
              kept = refl;
              consistent = holds;
              committed = refl;
              calls = refl;
            }))
  ]

module _ (env : Env) (t plan_id : Uuid) (w : World) where
  abbrev pub subscribe_call : Plan → Call
  subscribe_call plan = create_remote plan.razorpay_plan_id subscription_total_count

  -- the world after the call of Razorpay
  abbrev pub asked : Plan → World
  asked plan = record w { calls = subscribe_call plan ∷ w.calls }

  abbrev pub answer : Plan → RazorpayResponse
  answer plan = env.services.subscription w.calls plan.razorpay_plan_id

  -- What a subscription leaves, by how it ends.
  abbrev pub Subscribed : Result (Subscription × String) × World → Type 0
  Subscribed (ok (s, url), w') =
      (plan : Plan) × (get plan_id w.db.plans ≡ some plan)
      × (env.services.failure w.calls (subscribe_call plan) ≡ none)
      × (url ≡ (answer plan).short_url)
      × Assigned t plan.id (answer plan) (asked plan) s w'
  Subscribed (raised e, w') =
      (w'.saved ≡ w.saved)
      × (((get plan_id w.db.plans ≡ none) × (e ≡ plan_not_found))
          ⊎ ((plan : Plan) × (get plan_id w.db.plans ≡ some plan)
              × ((env.services.failure w.calls (subscribe_call plan) ≡ some e)
                  ⊎ (e ≡ integrity_error))))

  -- the end of the session, after the call
  abbrev with_url : String → Result Subscription × World → Result (Subscription × String) × World
  with_url url o = elim o.0 [ ok s ↦ (ok (s, url), o.1) | raised e ↦ (raised e, o.1) ]

  run_of_answered :
      (plan : Plan)
      → get plan_id w.db.plans ≡ some plan
      → env.services.failure w.calls (subscribe_call plan) ≡ none
      → create_subscription env t plan_id w
        ≡ with_url
            (answer plan).short_url
            (assign_subscription env t plan.id (answer plan) (asked plan))
  unfolding create_subscription
  run_of_answered plan found answered = ground arith

  run_of_failed :
      (plan : Plan) (e : Exn)
      → get plan_id w.db.plans ≡ some plan
      → env.services.failure w.calls (subscribe_call plan) ≡ some e
      → create_subscription env t plan_id w ≡ (raised e, asked plan)
  unfolding create_subscription
  run_of_failed plan e found failed = ground arith

  with_url-Subscribed :
      (plan : Plan)
      → get plan_id w.db.plans ≡ some plan
      → env.services.failure w.calls (subscribe_call plan) ≡ none
      → (o : Result Subscription × World) → AssignedOrNot t plan.id (answer plan) (asked plan) o
      → Subscribed (with_url (answer plan).short_url o)
  with_url-Subscribed plan found answered (ok s, w') assigned =
      (plan, found, answered, refl, assigned)
  with_url-Subscribed plan found answered (raised e, w') (broken, back, same) =
      (same, inr (plan, found, inr broken))

  -- On consistent tables a subscription that returns is committed, with what the one call of
  -- Razorpay answered: the subscription of the tenant is changed, and keeps its period, or it is
  -- new, and everything else is as it was. One that raises commits nothing: the plan is missing,
  -- or the call fails, or a constraint is broken.
  pub create_subscription-Subscribed :
      constraints_hold w.db ≡ true → Subscribed (create_subscription env t plan_id w)
  unfolding create_subscription
  create_subscription-Subscribed h = elim (Option-cases (get plan_id w.db.plans)) [
    | inl missing ↦ rw missing (refl, inl (missing, refl))
    | inr (plan, found) ↦ elim (Option-cases (env.services.failure w.calls (subscribe_call plan))) [
      | inr (e, failed) ↦
          subst Subscribed (sym (run_of_failed plan e found failed))
            (refl, inr (plan, found, inl failed))
      | inl answered ↦ subst Subscribed (sym (run_of_answered plan found answered)) (
          with_url-Subscribed plan found answered
            (assign_subscription env t plan.id (answer plan) (asked plan))
            (assign_subscription-AssignedOrNot env t plan.id (answer plan) (asked plan) h))
    ]
  ]
