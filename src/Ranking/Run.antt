-- ===== src/Ranking/Run.antt =====
-- `rank_candidates_for_job` of app/services/ranking.py: its response beside the tables.
use resume_screening_service.Common.{
  ℕ, ◌≡◌, refl, sym, subst, ap, Bool, true, false, Option, List, map, length, ⊤, if◌then◌else◌,
  nat_eq,
}
use resume_screening_service.Common.Int.{ℤ}
use resume_screening_service.Common.Sort.Laws.{All, IsDescending}
use resume_screening_service.Errors.{integrity_error, Result, ok, raised}
use resume_screening_service.Models.{Uuid, Job}
use resume_screening_service.Schemas.{MatchExplanation, RankedCandidate, ScreeningResponse}
use resume_screening_service.Services.{Env}
use resume_screening_service.Session.{
  World, Database, SameTables, pure, commit, constraints_hold, ◌>>=◌,
}
use resume_screening_service.Embeddings.{VectorMatch, query_similar_candidates}
use resume_screening_service.Embeddings.Tables.{KeepsTables-query_similar_candidates}
use resume_screening_service.EmbedText.{build_job_embed_text}
use resume_screening_service.Ranking.{
  Evaluation, Resolved, zip_evaluations, score_of, shortlist, int_or, resolve, screen_resolved,
  evaluate_all, record_shortlist, rank_candidates_for_job,
}
use resume_screening_service.Ranking.Shortlist.{shortlist-All}
use resume_screening_service.Ranking.Resolve.{IsOwn, Resolves, resolve-Resolves}
use resume_screening_service.Ranking.Evaluate.{
  IsEvaluated, Explains, evaluate_all-Explains, zip-IsEvaluated,
}
use resume_screening_service.Ranking.Record.{Ranked, Recorded, Records, record_shortlist-Records}

-- What a screening that returns has returned and committed.
pub record Screened (env : Env) (t : Uuid) (job : Job) (before : Database) (r : ScreeningResponse)
    (after : Database) : Type 0 where
  pub evaluations : List Evaluation
  pub evaluated : All (IsEvaluated env t job before) evaluations
  pub descending : IsDescending score_of evaluations
  pub ranked : Ranked env 1 evaluations r.ranked_candidates
  pub recorded : Recorded job r.ranked_candidates before.match_results after.match_results
  pub kept : after ≡ record before { match_results = after.match_results }
  pub consistent : constraints_hold after ≡ true

-- A screening that raises has committed nothing.
abbrev pub Outcome :
    Env → Uuid → Job → Database → Database → Result ScreeningResponse × World → Type 0
Outcome env t job db saved (ok r, w') = Screened env t job db r w'.saved
Outcome env t job db saved (raised e, w') = w'.saved ≡ saved

module _ (env : Env) (t : Uuid) (job : Job) (total : ℕ) where
  abbrev response : List RankedCandidate → ScreeningResponse
  response ranked = record {
    job_id = job.id;
    job_title = job.title;
    total_candidates_screened = total;
    ranked_candidates = ranked;
  }

  record_and_commit-Outcome :
      (xs : List Evaluation) (w : World)
      → All (IsEvaluated env t job w.db) xs
      → IsDescending score_of xs
      → Outcome env t job w.db w.saved (
          (record_shortlist env job 1 xs >>= λ ranked. commit >>= λ done. pure (response ranked)) w)
  record_and_commit-Outcome xs w evaluated descending =
      pick (record_shortlist env job 1 xs w) (record_shortlist-Records env job 1 xs w)
    where
      pick :
          (o : Result (List RankedCandidate) × World)
          → Records env job 1 xs w o
          → Outcome env t job w.db w.saved (elim o.0 as (λ _. Result ScreeningResponse × World) [
            | ok ranked ↦ (commit >>= λ done. pure (response ranked)) o.1
            | raised e ↦ (raised e, o.1)
          ])
      pick (raised e, w') h = h
      pick (ok ranked, w') (listed, recorded, kept, clean) = close (constraints_hold w'.db) refl
        where
          close :
              (b : Bool)
              → constraints_hold w'.db ≡ b
              → Outcome env t job w.db w.saved (
                  (λ (o : Result ⊤ × World). elim o.0 as (λ _. Result ScreeningResponse × World) [
                    | ok done ↦ (ok (response ranked), o.1)
                    | raised e ↦ (raised e, o.1)
                  ])
                    (if b
                      then (ok tt, record w' { saved = w'.db })
                      else (raised integrity_error, record w' { db = w'.saved })))
          close true held = record {
            evaluations = xs;
            evaluated = evaluated;
            descending = descending;
            ranked = listed;
            recorded = recorded;
            kept = kept;
            consistent = held;
          }
          close false broken = clean

  Outcome-of_same :
      (w w1 : World) (o : Result ScreeningResponse × World)
      → SameTables w w1
      → Outcome env t job w1.db w1.saved o
      → Outcome env t job w.db w.saved o
  Outcome-of_same w w1 o same h =
      subst (λ db. Outcome env t job db w.saved o) same.0
        (subst (λ saved. Outcome env t job w1.db saved o) same.1 h)

  screen_resolved-Outcome :
      (n : ℤ) (resolved : List Resolved) (w : World)
      → All (λ r. IsOwn t w.db r.0) resolved
      → Outcome env t job w.db w.saved (screen_resolved env job n total resolved w)
  unfolding screen_resolved
  screen_resolved-Outcome n resolved w own =
      pick (evaluate_all env job (map (λ (r : Resolved). r.0) resolved) w)
        (evaluate_all-Explains env job (map (λ (r : Resolved). r.0) resolved) w)
    where
      pick :
          (o : Result (List MatchExplanation) × World)
          → Explains env job (map (λ (r : Resolved). r.0) resolved) w o
          → Outcome env t job w.db w.saved (elim o.0 as (λ _. Result ScreeningResponse × World) [
            | ok es ↦
                (record_shortlist env job 1 (shortlist n resolved es) >>= λ ranked.
                commit >>= λ done. pure (response ranked))
                  o.1
            | raised e ↦ (raised e, o.1)
          ])
      pick (raised e, w1) h = h.1
      pick (ok es, w1) (all, (same_db, same_saved)) =
          let evaluated =
            subst (λ xs. All (IsEvaluated env t job w.db) (zip_evaluations resolved xs)) (sym all)
              (zip-IsEvaluated env t job w.db resolved own) in
          let (short, descending) =
            shortlist-All (IsEvaluated env t job w.db) n resolved es evaluated in
          let xs = shortlist n resolved es in
          Outcome-of_same w w1 _ (same_db, same_saved)
            (record_and_commit-Outcome xs w1
              (subst (λ db. All (IsEvaluated env t job db) xs) (sym same_db) short) descending)

module _ (env : Env) (t : Uuid) (job : Job) where
  resolve_and_screen-Outcome :
      (n : ℤ) (ms : List VectorMatch) (w : World)
      → Outcome env t job w.db w.saved
          ((resolve env t ms >>= λ resolved. screen_resolved env job n (length ms) resolved) w)
  resolve_and_screen-Outcome n ms w = pick (resolve env t ms w) (resolve-Resolves env t ms w)
    where
      pick :
          (o : Result (List Resolved) × World)
          → Resolves env t w o
          → Outcome env t job w.db w.saved (elim o.0 as (λ _. Result ScreeningResponse × World) [
            | ok resolved ↦ screen_resolved env job n (length ms) resolved o.1
            | raised e ↦ (raised e, o.1)
          ])
      pick (raised e, w1) h = ap (λ w'. w'.saved) h
      pick (ok resolved, w1) (same, own) =
          Outcome-of_same env t job (length ms) w w1 _
            (ap (λ w'. w'.db) same, ap (λ w'. w'.saved) same)
            (screen_resolved-Outcome env t job (length ms) n resolved w1
              (subst (λ w'. All (λ r. IsOwn t w'.db r.0) resolved) (sym same) own))

  -- A screening either commits and returns a ranking of evaluated candidates of the tenant, or it
  -- raises and has committed nothing. The ranking: its scores descend, its ranks count from 1, each
  -- score and explanation is what the model answered for a stored candidate of the tenant, and one
  -- row with the same candidate, rank, score and explanation is added for each, and nothing else.
  pub rank_candidates_for_job-Outcome :
      (top_k top_n : Option ℤ) (w : World)
      → Outcome env t job w.db w.saved (rank_candidates_for_job env t job top_k top_n w)
  unfolding rank_candidates_for_job
  rank_candidates_for_job-Outcome top_k top_n w =
      let text = build_job_embed_text job in
      let k = int_or top_k env.settings.vector_top_k in
      pick (query_similar_candidates env text (env.show_uuid t) k w)
        ((KeepsTables-query_similar_candidates env text (env.show_uuid t) k).same w)
    where
      pick :
          (o : Result (List VectorMatch) × World)
          → SameTables w o.1
          → Outcome env t job w.db w.saved (elim o.0 as (λ _. Result ScreeningResponse × World) [
            | ok ms ↦
                (resolve env t ms >>= λ resolved.
                screen_resolved env job
                  (int_or top_n env.settings.ranking_top_n)
                  (length ms)
                  resolved)
                  o.1
            | raised e ↦ (raised e, o.1)
          ])
      pick (raised e, w1) same = same.1
      pick (ok ms, w1) same =
          Outcome-of_same env t job (length ms) w w1 _ same
            (resolve_and_screen-Outcome (int_or top_n env.settings.ranking_top_n) ms w1)
