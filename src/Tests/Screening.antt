-- ===== src/Tests/Screening.antt =====
-- The theorems on the ranking, at the sample server.
use resume_screening_service.Common.{◌≡◌, ◌≤◌, ◌⊎◌, List, [], ◌∷◌, none, some, length}
use resume_screening_service.Common.Int.{pos}
use resume_screening_service.Schemas.{MatchExplanation}
use resume_screening_service.Services.{Env}
use resume_screening_service.Ranking.{
  Evaluation, Resolved, zip_evaluations, shortlist, rank_candidates_for_job,
}
use resume_screening_service.Ranking.Shortlist.{Ranks, shortlist-Ranks}
use resume_screening_service.Ranking.Run.{Outcome, rank_candidates_for_job-Outcome}
use resume_screening_service.Tests.Sample.{
  sample_env, sample_services, sample_db, sample_world, ada, developer,
}

-- the server, with a vector search that finds one candidate
abbrev finding : Env
finding = record sample_env {
  services = record sample_services {
    matches = λ before v top_k namespace.
        record { candidate_id = some "||||"; score = some (pos 9) } ∷ [];
  };
}

rank_candidates_for_job-Outcome_example :
    Outcome finding 1 developer sample_db sample_db
      (rank_candidates_for_job finding 1 developer none (some (pos 3)) sample_world)
rank_candidates_for_job-Outcome_example =
    rank_candidates_for_job-Outcome finding 1 developer none (some (pos 3)) sample_world

abbrev two_resolved : List Resolved
two_resolved = (ada, pos 8) ∷ (record ada { id = 6 }, pos 9) ∷ []

abbrev two_explanations : List MatchExplanation
two_explanations =
    record { score = pos 40; strengths = []; gaps = []; summary = "fair" }
    ∷ record { score = pos 70; strengths = []; gaps = []; summary = "good" }
    ∷ []

shortlist-Ranks_example :
    (rest : List Evaluation) × Ranks
      (zip_evaluations two_resolved two_explanations)
      (shortlist (pos 1) two_resolved two_explanations)
      rest
    × ((length (shortlist (pos 1) two_resolved two_explanations) ≡ 1)
        ⊎ ((length (shortlist (pos 1) two_resolved two_explanations) ≤ 1) × (rest ≡ [])))
shortlist-Ranks_example = shortlist-Ranks 1 two_resolved two_explanations
