-- ===== src/Ranking/Record.antt =====
-- The loop over the shortlist of app/services/ranking.py: its list and its rows.
use resume_screening_service.Common.{
  ℕ, suc, ◌≡◌, refl, ap, some, List, [], ◌∷◌, arith, inl, inr, Option-cases, nat_eq,
}
use resume_screening_service.Errors.{Result, ok, raised}
use resume_screening_service.Models.{Job, MatchResult}
use resume_screening_service.Schemas.{RankedCandidate}
use resume_screening_service.Services.{Env}
use resume_screening_service.Session.{World}
use resume_screening_service.Ranking.{Evaluation, ranked_candidate, match_record, record_shortlist}

-- The table before and after one row for each candidate that is returned.
pub data Recorded (job : Job)
    : List RankedCandidate → List MatchResult → List MatchResult → Type 0 where
  end : {before : List MatchResult} → Recorded job [] before before
  next :
      {r : RankedCandidate} {rs : List RankedCandidate} {m : MatchResult}
      {before after : List MatchResult}
      → m.job_id ≡ job.id
      → m.candidate_id ≡ r.candidate_id
      → m.rank ≡ some r.rank
      → m.llm_score ≡ some r.llm_score
      → m.explanation ≡ some r.explanation
      → Recorded job rs (m ∷ before) after
      → Recorded job (r ∷ rs) before after

module _ (env : Env) where
  -- The list that is returned against the evaluations, from a rank on.
  pub data Ranked : ℕ → List Evaluation → List RankedCandidate → Type 0 where
    end : {rank : ℕ} → Ranked rank [] []
    next :
        {rank : ℕ} {x : Evaluation} {xs : List Evaluation} {r : RankedCandidate}
        {rs : List RankedCandidate}
        → ranked_candidate env rank x ≡ ok r
        → Ranked (suc rank) xs rs
        → Ranked rank (x ∷ xs) (r ∷ rs)

  -- what the loop over the shortlist returns and records, from a rank on
  abbrev pub Records :
      Job → ℕ → List Evaluation → World → Result (List RankedCandidate) × World → Type 0
  Records job rank xs w (ok rs, w') =
      Ranked rank xs rs
      × Recorded job rs w.db.match_results w'.db.match_results
      × (w'.db ≡ record w.db { match_results = w'.db.match_results })
      × (w'.saved ≡ w.saved)
  Records job rank xs w (raised e, w') = w'.saved ≡ w.saved

  pub ranked_candidate-fields :
      (rank : ℕ) (x : Evaluation) (r : RankedCandidate)
      → ranked_candidate env rank x ≡ ok r
      → (x.candidate.id ≡ r.candidate_id)
        × (rank ≡ r.rank)
        × (x.explanation.score ≡ r.llm_score)
        × (x.explanation.summary ≡ r.explanation)
  unfolding ranked_candidate
  ranked_candidate-fields rank x r h = elim (Option-cases x.candidate.full_name) [
    | inl unnamed ↦ absurd (ground arith)
    | inr (name, named) ↦ (ground arith, ground arith, ground arith, ground arith)
  ]

  -- the world after the record of one evaluation
  abbrev recorded : Job → ℕ → Evaluation → World → World
  recorded job rank x w = record w {
    db = record w.db {
      match_results = match_record env (env.uuid4 w.draws) job rank x ∷ w.db.match_results;
    };
    draws = suc w.draws;
  }

  Records-cons :
      (job : Job) (rank : ℕ) (x : Evaluation) (xs : List Evaluation) (r : RankedCandidate)
      (w : World) (o : Result (List RankedCandidate) × World)
      → ranked_candidate env rank x ≡ ok r
      → Records job (suc rank) xs (recorded job rank x w) o
      → Records job rank (x ∷ xs) w (elim o.0 as (λ _. Result (List RankedCandidate) × World) [
        | ok rs ↦ (ok (r ∷ rs), o.1)
        | raised e ↦ (raised e, o.1)
      ])
  Records-cons job rank x xs r w (ok rs, w') e (ranked, recorded, rest, clean) =
      let (c, n, score, text) = ranked_candidate-fields rank x r e in
      (
        Ranked.next e ranked,
        Recorded.next refl c (ap some n) (ap some score) (ap some text) recorded,
        rest,
        clean,
      )
  Records-cons job rank x xs r w (raised failure, w') e h = h

  pub record_shortlist-Records :
      (job : Job) (rank : ℕ) (xs : List Evaluation) (w : World)
      → Records job rank xs w (record_shortlist env job rank xs w)
  unfolding record_shortlist
  record_shortlist-Records job rank [] w = (Ranked.end, Recorded.end, refl, refl)
  record_shortlist-Records job rank (x ∷ xs) w =
      pick (ranked_candidate env rank x) refl
        (record_shortlist-Records job (suc rank) xs (recorded job rank x w))
    where
      pick :
          (o : Result RankedCandidate)
          → ranked_candidate env rank x ≡ o
          → Records job
              (suc rank)
              xs
              (recorded job rank x w)
              (record_shortlist env job (suc rank) xs (recorded job rank x w))
          → Records job rank (x ∷ xs) w (elim o as (λ _. Result (List RankedCandidate) × World) [
            | raised e ↦ (raised e, w)
            | ok r ↦
                let (o', w') = record_shortlist env job (suc rank) xs (recorded job rank x w) in
                elim o' as (λ _. Result (List RankedCandidate) × World) [
                  | ok rs ↦ (ok (r ∷ rs), w')
                  | raised e ↦ (raised e, w')
                ]
          ])
      pick (raised failure) e h = refl
      pick (ok r) e h =
          Records-cons job rank x xs r w
            (record_shortlist env job (suc rank) xs (recorded job rank x w)) e h
