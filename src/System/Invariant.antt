-- ===== src/System/Invariant.antt =====
-- What the comments of app/models/db.py and the code assume of every row, kept by every commit.
use resume_screening_service.Common.{
  String, List, [], ◌∷◌, ◌≡◌, sym, subst, ap, refl, true, false, Bool, Row, put, ◌==◌, nat_eq, ◌∙◌,
  if◌then◌else◌, get, find, Bool-cases, inl, inr, arith, some,
}
use resume_screening_service.Common.Sort.Laws.{All, All-++, All-mono}
use resume_screening_service.Models.{
  Uuid, Instant, ApiKey, Plan, Subscription, api_key_row, subscription_row, candidate_row, job_row,
}
use resume_screening_service.Session.{World, Database, constraints_hold}
use resume_screening_service.Session.Laws.{distinct_candidates, distinct_jobs}
use resume_screening_service.Services.{Env}
use resume_screening_service.System.{Request, serve_all}
use resume_screening_service.System.Histories.{serve_all-History}
use resume_screening_service.System.Moves.{
  Move, History, IsAccount, IsIndexed, HasOwnVector, IsIndexedJob, IsMatch, History-consistent,
  History-closed,
}
use resume_screening_service.System.Matches.{
  IsOwnMatch, IsOwnMatch-add_candidate, IsOwnMatch-add_job, IsOwnMatch-put_candidate,
  IsOwnMatch-of_IsMatch, IsOwnMatch-same,
}

pub record IsSound (show_uuid : Uuid → String) (db : Database) : Type 0 where
  pub accounts : All IsAccount db.tenants
  pub indexed : All (IsIndexed show_uuid) db.candidates
  pub own_vectors : All (HasOwnVector show_uuid) db.candidates
  pub indexed_jobs : All (IsIndexedJob show_uuid) db.jobs
  pub own_matches : All (IsOwnMatch db) db.match_results

pub All-put :
    {A : Type 0} ⦃r : Row A⦄ (P : A → Type 0) (x : A) (xs : List A)
    → P x
    → All P xs
    → All P (put x xs)
unfolding put
All-put P x [] p h = tt
All-put ⦃r⦄ P x (y ∷ ys) p h = pick (r.key y == r.key x) (All-put ⦃r = r⦄ P x ys p h.1)
  where
    pick : (b : Bool) → All P (put x ys) → All P (if b then x ∷ ys else y ∷ put x ys)
    pick true later = (p, h.1)
    pick false later = (h.0, later)

pub All-get :
    {A : Type 0} ⦃r : Row A⦄ (P : A → Type 0) (k : Uuid) (x : A) (xs : List A)
    → get k xs ≡ some x
    → All P xs
    → P x
unfolding get find
All-get P k x [] found h = absurd (cc)
All-get ⦃r⦄ P k x (y ∷ ys) found h = elim (Bool-cases (r.key y == k)) [
  | inl same ↦ subst P (ground arith) h.0
  | inr other ↦ All-get ⦃r = r⦄ P k x ys (ground arith) h.1
]

module _ (show_uuid : Uuid → String) (t : Uuid) where
  -- The other tables do not matter.
  IsSound-other :
      (db db' : Database) (ks : List ApiKey) (ps : List Plan) (ss : List Subscription)
      → db' ≡ record db { api_keys = ks; plans = ps; subscriptions = ss }
      → IsSound show_uuid db
      → IsSound show_uuid db'
  IsSound-other db db' ks ps ss e s = subst (IsSound show_uuid) (sym e) (record {
    accounts = s.accounts;
    indexed = s.indexed;
    own_vectors = s.own_vectors;
    indexed_jobs = s.indexed_jobs;
    own_matches = IsOwnMatch-same db _ db.match_results refl refl s.own_matches;
  })

  Move-IsSound :
      (db db' : Database)
      → constraints_hold db ≡ true
      → constraints_hold db' ≡ true
      → IsSound show_uuid db
      → Move show_uuid t db db'
      → IsSound show_uuid db'
  Move-IsSound db db' held held' s (Move.tenant_added a _ account e) =
      subst (IsSound show_uuid) (sym e) (record {
        accounts = (account, s.accounts);
        indexed = s.indexed;
        own_vectors = s.own_vectors;
        indexed_jobs = s.indexed_jobs;
        own_matches = IsOwnMatch-same db _ db.match_results refl refl s.own_matches;
      })
  Move-IsSound db db' held held' s (Move.key_added k _ _ e) =
      IsSound-other db db' (k ∷ db.api_keys) db.plans db.subscriptions e s
  Move-IsSound db db' held held' s (Move.key_changed k old _ _ _ _ _ e) =
      IsSound-other db db' (put k db.api_keys) db.plans db.subscriptions e s
  Move-IsSound db db' held held' s (Move.candidate_added c _ _ indexed own e) =
      subst (IsSound show_uuid) (sym e) (record {
        accounts = s.accounts;
        indexed = (indexed, s.indexed);
        own_vectors = (own, s.own_vectors);
        indexed_jobs = s.indexed_jobs;
        own_matches =
            All-mono (IsOwnMatch db) (IsOwnMatch (record db { candidates = c ∷ db.candidates }))
              (λ m.
                IsOwnMatch-add_candidate db c m
                  (distinct_candidates _ (ap constraints_hold (sym e) ∙ held')))
              db.match_results s.own_matches;
      })
  Move-IsSound db db' held held' s
        (Move.candidate_changed c old found was own _ _ indexed vector e) =
      subst (IsSound show_uuid) (sym e) (record {
        accounts = s.accounts;
        indexed =
            All-put ⦃r = candidate_row⦄ (IsIndexed show_uuid) c db.candidates indexed s.indexed;
        own_vectors =
            All-put ⦃r = candidate_row⦄ (HasOwnVector show_uuid) c db.candidates
              (vector (
                All-get ⦃r = candidate_row⦄ (HasOwnVector show_uuid) c.id old db.candidates found
                  s.own_vectors))
              s.own_vectors;
        indexed_jobs = s.indexed_jobs;
        own_matches =
            All-mono (IsOwnMatch db) (IsOwnMatch (record db { candidates = put c db.candidates }))
              (λ m. IsOwnMatch-put_candidate db c old m found (own ∙ sym was)) db.match_results
              s.own_matches;
      })
  Move-IsSound db db' held held' s (Move.job_added j _ indexed e) =
      subst (IsSound show_uuid) (sym e) (record {
        accounts = s.accounts;
        indexed = s.indexed;
        own_vectors = s.own_vectors;
        indexed_jobs = (indexed, s.indexed_jobs);
        own_matches =
            All-mono (IsOwnMatch db) (IsOwnMatch (record db { jobs = j ∷ db.jobs }))
              (λ m.
                IsOwnMatch-add_job db j m (distinct_jobs _ (ap constraints_hold (sym e) ∙ held')))
              db.match_results s.own_matches;
      })
  Move-IsSound db db' held held' s (Move.matches_added ms all e) =
      subst (IsSound show_uuid) (sym e) (record {
        accounts = s.accounts;
        indexed = s.indexed;
        own_vectors = s.own_vectors;
        indexed_jobs = s.indexed_jobs;
        own_matches =
            All-++ (IsOwnMatch _) ms db.match_results
              (IsOwnMatch-same db _ ms refl refl (
                All-mono (IsMatch t db) (IsOwnMatch db) (λ m. IsOwnMatch-of_IsMatch t db m held) ms
                  all))
              (IsOwnMatch-same db _ db.match_results refl refl s.own_matches);
      })
  Move-IsSound db db' held held' s (Move.plan_added p e) =
      IsSound-other db db' db.api_keys (p ∷ db.plans) db.subscriptions e s
  Move-IsSound db db' held held' s (Move.subscription_added x _ e) =
      IsSound-other db db' db.api_keys db.plans (x ∷ db.subscriptions) e s
  Move-IsSound db db' held held' s (Move.subscription_changed x old _ _ _ e) =
      IsSound-other db db' db.api_keys db.plans (put x db.subscriptions) e s

History-IsSound :
    (show_uuid : Uuid → String) (db db' : Database)
    → constraints_hold db ≡ true
    → History show_uuid db db'
    → IsSound show_uuid db
    → IsSound show_uuid db'
History-IsSound show_uuid =
    History-closed show_uuid (λ db db'. IsSound show_uuid db → IsSound show_uuid db') (λ db s. s)
      (λ _ _ _ f g s. g (f s))
      (λ t db db' held held' m s. Move-IsSound show_uuid t db db' held held' s m)

-- Consistent tables, in which every tenant is one of the three kinds, every processed candidate has
-- a name and the id of its vector, no candidate has the id of another vector than its own, every
-- job has the id of its vector, and every match is of a candidate and a job of one tenant, stay so
-- under every sequence of requests, webhooks and messages.
pub serve_all-IsSound :
    (env : Env) (rs : List (Instant × Request)) (w : World)
    → constraints_hold w.saved ≡ true
    → IsSound env.show_uuid w.saved
    → (constraints_hold (serve_all env rs w).saved ≡ true)
      × IsSound env.show_uuid (serve_all env rs w).saved
serve_all-IsSound env rs w held s =
    let history = serve_all-History env rs w held in
    (
      History-consistent env.show_uuid w.saved (serve_all env rs w).saved held history,
      History-IsSound env.show_uuid w.saved (serve_all env rs w).saved held history s,
    )
