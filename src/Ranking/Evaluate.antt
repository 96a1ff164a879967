-- ===== src/Ranking/Evaluate.antt =====
-- The evaluations of app/services/ranking.py.
use resume_screening_service.Common.{◌≡◌, refl, ◌∙◌, List, [], ◌∷◌, map, arith, nat_eq}
use resume_screening_service.Common.Sort.Laws.{All}
use resume_screening_service.Errors.{Result, ok, raised}
use resume_screening_service.Models.{Uuid, Candidate, Job}
use resume_screening_service.Schemas.{MatchExplanation}
use resume_screening_service.Services.{Env}
use resume_screening_service.Session.{World, Database, SameTables}
use resume_screening_service.EmbedText.{match_input}
use resume_screening_service.Ranking.{
  Evaluation, Resolved, zip_evaluations, collect, evaluate, evaluate_all,
}
use resume_screening_service.Ranking.Resolve.{IsOwn}

module _ (env : Env) where
  -- An evaluation of a candidate of the tenant, with what the model answered for it.
  abbrev pub IsEvaluated : Uuid → Job → Database → Evaluation → Type 0
  IsEvaluated t job db x =
      IsOwn t db x.candidate
      × (x.explanation ≡ env.services.explanation (match_input job x.candidate))

  abbrev pub explain : Job → Candidate → MatchExplanation
  explain job c = env.services.explanation (match_input job c)

  -- what evaluations are, and that making them changes no row
  abbrev pub Explains :
      Job → List Candidate → World → Result (List MatchExplanation) × World → Type 0
  Explains job cs w (ok es, w') = (es ≡ map (explain job) cs) × SameTables w w'
  Explains job cs w (raised e, w') = SameTables w w'

  evaluate-Explains :
      (job : Job) (c : Candidate) (w : World)
      → let (o, w') = evaluate env job c w in
        SameTables w w' × ((e : MatchExplanation) → o ≡ ok e → e ≡ explain job c)
  unfolding evaluate
  evaluate-Explains job c w = ((ground arith, ground arith), λ e h. ground arith)

  Explains-cons :
      (job : Job) (c : Candidate) (cs : List Candidate) (w w1 w2 : World)
      (o : Result MatchExplanation) (os : Result (List MatchExplanation))
      → SameTables w w1
      → ((e : MatchExplanation) → o ≡ ok e → e ≡ explain job c)
      → Explains job cs w1 (os, w2)
      → Explains job (c ∷ cs) w (collect o os, w2)
  Explains-cons job c cs w w1 w2 (raised e) (raised f) same one h = (h.0 ∙ same.0, h.1 ∙ same.1)
  Explains-cons job c cs w w1 w2 (raised e) (ok es) same one h = (h.1.0 ∙ same.0, h.1.1 ∙ same.1)
  Explains-cons job c cs w w1 w2 (ok x) (raised e) same one h = (h.0 ∙ same.0, h.1 ∙ same.1)
  Explains-cons job c cs w w1 w2 (ok x) (ok es) same one h =
      let first = one x refl in let later = h.0 in (cc, (h.1.0 ∙ same.0, h.1.1 ∙ same.1))

  pub evaluate_all-Explains :
      (job : Job) (cs : List Candidate) (w : World) → Explains job cs w (evaluate_all env job cs w)
  unfolding evaluate_all
  evaluate_all-Explains job [] w = (refl, (refl, refl))
  evaluate_all-Explains job (c ∷ cs) w =
      let (o, w1) = evaluate env job c w in
      let (os, w2) = evaluate_all env job cs w1 in
      let (same, one) = evaluate-Explains job c w in
      Explains-cons job c cs w w1 w2 o os same one (evaluate_all-Explains job cs w1)

  pub zip-IsEvaluated :
      (t : Uuid) (job : Job) (db : Database) (rs : List Resolved)
      → All (λ r. IsOwn t db r.0) rs
      → All
          (IsEvaluated t job db)
          (zip_evaluations rs (map (explain job) (map (λ (r : Resolved). r.0) rs)))
  unfolding zip_evaluations
  zip-IsEvaluated t job db [] h = tt
  zip-IsEvaluated t job db (r ∷ rs) h = ((h.0, refl), zip-IsEvaluated t job db rs h.1)
