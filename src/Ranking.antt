-- ===== src/Ranking.antt =====
-- Screening: `rank_candidates_for_job` of app/services/ranking.py, with the call of the language
-- model of app/services/matching.py.
pub mod Shortlist
pub mod Resolve
pub mod Evaluate
pub mod Record
pub mod Run
use resume_screening_service.Common.{
  ℕ, suc, ◌+◌, ◌-◌, String, Option, none, some, List, [], ◌∷◌, map, length, take, truthy, ◌==◌,
  nat_eq, if◌then◌else◌,
}
use resume_screening_service.Common.Int.{ℤ, pos, negsuc}
use resume_screening_service.Common.Sort.{sort_desc}
use resume_screening_service.Errors.{Exn, value_error, validation_error, Result, ok, raised}
use resume_screening_service.Models.{Uuid, Float, Candidate, Job, MatchResult}
use resume_screening_service.Schemas.{MatchExplanation, RankedCandidate, ScreeningResponse}
use resume_screening_service.Services.{match_prompt, Env}
use resume_screening_service.Session.{
  Action, pure, or_raise, update, commit, perform, new_id, ◌>>=◌, ◌>>◌,
}
use resume_screening_service.Repositories.{get_candidate_by_id}
use resume_screening_service.Embeddings.{VectorMatch, query_similar_candidates}
use resume_screening_service.EmbedText.{build_job_embed_text, match_input}

-- `n or default`
unfoldable pub int_or : Option ℤ → ℕ → ℤ
int_or none default = pos default
int_or (some (pos n)) default = if n == 0 then pos default else pos n
int_or (some (negsuc n)) default = negsuc n

-- `l[:n]`: a negative bound leaves that many out at the end
unfoldable pub slice {ℓ} : {A : Type ℓ} → ℤ → List A → List A
slice (pos n) l = take n l
slice (negsuc n) l = take (length l - (n + 1)) l

abbrev pub bad_uuid : Exn
bad_uuid = value_error "badly formed hexadecimal UUID string"

abbrev pub no_name : Exn
no_name = validation_error "full_name: Input should be a valid string"

-- `(candidate, vector_score, explanation)`
pub record Evaluation : Type 0 where
  pub candidate : Candidate
  pub vector_score : Float
  pub explanation : MatchExplanation

abbrev pub Resolved : Type 0
Resolved = Candidate × Float

abbrev pub to_evaluation : Resolved → MatchExplanation → Evaluation
to_evaluation r e = record { candidate = r.0; vector_score = r.1; explanation = e }

-- `zip(resolved, explanations)`
unfoldable pub zip_evaluations : List Resolved → List MatchExplanation → List Evaluation
zip_evaluations [] es = []
zip_evaluations (r ∷ rs) [] = []
zip_evaluations (r ∷ rs) (e ∷ es) = to_evaluation r e ∷ zip_evaluations rs es

abbrev pub score_of : Evaluation → Float
score_of x = x.explanation.score

-- the first failure of a list of results, or all of their values
abbrev pub collect {ℓ} : {A : Type ℓ} → Result A → Result (List A) → Result (List A)
collect (raised e) rs = raised e
collect (ok x) (raised e) = raised e
collect (ok x) (ok xs) = ok (x ∷ xs)

-- the evaluations that are returned, best first
unfoldable pub shortlist : ℤ → List Resolved → List MatchExplanation → List Evaluation
unfolding zip_evaluations slice
shortlist top_n resolved explanations =
    slice top_n (sort_desc score_of (zip_evaluations resolved explanations))

module _ (env : Env) where
  open env use {settings, services, now, show_uuid, parse_uuid, round4}

  -- the loop body from the query on, and its rest
  abbrev pub resolve_id : Uuid → Uuid → Float → Action (List Resolved) → Action (List Resolved)
  resolve_id tenant_id id vector_score rest = do
    candidate ← get_candidate_by_id tenant_id id
    elim candidate [
      | none ↦ rest
      | some c ↦ do resolved ← rest; pure ((c, vector_score) ∷ resolved)
    ]

  -- the loop body for a match with an id
  abbrev pub resolve_one : Uuid → String → Float → Action (List Resolved) → Action (List Resolved)
  resolve_one tenant_id text vector_score rest = do
    id ← or_raise (parse_uuid text) bad_uuid
    resolve_id tenant_id id vector_score rest

  -- the loop over the matches: those with no id and those with no row of the tenant are skipped
  unfoldable pub resolve : Uuid → List VectorMatch → Action (List Resolved)
  resolve tenant_id [] = pure []
  resolve tenant_id (m ∷ ms) =
      let rest = resolve tenant_id ms in
      elim m.candidate_id [
        | none ↦ rest
        | some text ↦ if truthy text then resolve_one tenant_id text m.vector_score rest else rest
      ]

  -- `_evaluate`
  unfoldable pub evaluate : Job → Candidate → Action MatchExplanation
  evaluate job candidate = do
    perform env (match_prompt (match_input job candidate))
    pure (services.explanation (match_input job candidate))

  -- `list(pool.map(_evaluate, …))`: the results in the order of the candidates, or the first
  -- failure. The pool makes the calls in any order, and may drop those that wait when one has
  -- failed; the trace has them all, in the order of the candidates.
  unfoldable pub evaluate_all : Job → List Candidate → Action (List MatchExplanation)
  unfolding evaluate
  evaluate_all job [] w = (ok [], w)
  evaluate_all job (c ∷ cs) w =
      let (r, w') = evaluate job c w in
      let (rs, w'') = evaluate_all job cs w' in (collect r rs, w'')

  abbrev pub match_record : Uuid → Job → ℕ → Evaluation → MatchResult
  match_record id job rank x = record {
    id = id;
    candidate_id = x.candidate.id;
    job_id = job.id;
    vector_score = some x.vector_score;
    llm_score = some x.explanation.score;
    rank = some rank;
    explanation = some x.explanation.summary;
    created_at = now;
  }

  -- `RankedCandidate(...)`, which wants a name
  unfoldable pub ranked_candidate : ℕ → Evaluation → Result RankedCandidate
  ranked_candidate rank x = elim x.candidate.full_name [
    | none ↦ raised no_name
    | some name ↦ ok (record {
      candidate_id = x.candidate.id;
      full_name = name;
      vector_score = round4 x.vector_score;
      llm_score = x.explanation.score;
      rank = rank;
      explanation = x.explanation.summary;
      strengths = x.explanation.strengths;
      gaps = x.explanation.gaps;
    })
  ]

  -- the loop over the shortlist, from a rank on
  unfoldable pub record_shortlist : Job → ℕ → List Evaluation → Action (List RankedCandidate)
  unfolding ranked_candidate
  record_shortlist job rank [] = pure []
  record_shortlist job rank (x ∷ xs) = do
    ranked ← (λ w. (ranked_candidate rank x, w))
    id ← new_id env
    update (λ db. record db { match_results = match_record id job rank x ∷ db.match_results })
    rest ← record_shortlist job (suc rank) xs
    pure (ranked ∷ rest)

  -- from the resolved candidates on
  unfoldable pub screen_resolved : Job → ℤ → ℕ → List Resolved → Action ScreeningResponse
  unfolding evaluate_all record_shortlist shortlist
  screen_resolved job top_n total resolved = do
    explanations ← evaluate_all job (map (λ r. r.0) resolved)
    ranked ← record_shortlist job 1 (shortlist top_n resolved explanations)
    commit
    pure (record {
      job_id = job.id;
      job_title = job.title;
      total_candidates_screened = total;
      ranked_candidates = ranked;
    })

  unfoldable pub rank_candidates_for_job :
      Uuid → Job → Option ℤ → Option ℤ → Action ScreeningResponse
  unfolding resolve screen_resolved int_or
  rank_candidates_for_job tenant_id job top_k top_n = do
    matches ←
        query_similar_candidates env (build_job_embed_text job) (show_uuid tenant_id)
          (int_or top_k settings.vector_top_k)
    resolved ← resolve tenant_id matches
    screen_resolved job (int_or top_n settings.ranking_top_n) (length matches) resolved
