-- ===== src/Ranking/Shortlist.antt =====
-- The sort and the cut of app/services/ranking.py.
use resume_screening_service.Common.{
  ℕ, ◌≤◌, ◌≡◌, ◌⊎◌, sym, subst, ap, ◌∙◌, List, [], ◌++◌, length, take, drop, select,
}
use resume_screening_service.Common.Int.{ℤ, pos, negsuc}
use resume_screening_service.Common.Sort.{sort_desc}
use resume_screening_service.Common.Sort.Laws.{
  All, All-take, All-sort, IsDescending, IsDescending-take, sort-IsDescending, has_key, select-sort,
  take++drop, length-take,
}
use resume_screening_service.Models.{Float}
use resume_screening_service.Schemas.{MatchExplanation}
use resume_screening_service.Ranking.{
  Evaluation, Resolved, zip_evaluations, score_of, shortlist, slice,
}

-- `best` and `rest` are all evaluations: no score of `rest` is above one of `best`, `best` comes
-- best first, and equal scores come in the order of the matches.
pub record Ranks (evaluations best rest : List Evaluation) : Type 0 where
  pub descending : IsDescending score_of (best ++ rest)
  pub stable :
      (s : Float)
      → select (has_key score_of s) (best ++ rest) ≡ select (has_key score_of s) evaluations

sorted-Ranks :
    (evaluations best rest : List Evaluation)
    → best ++ rest ≡ sort_desc score_of evaluations
    → Ranks evaluations best rest
sorted-Ranks evaluations best rest e = record {
  descending = subst (IsDescending score_of) (sym e) (sort-IsDescending score_of evaluations);
  stable = λ s. ap (select (has_key score_of s)) e ∙ select-sort score_of s evaluations;
}

-- For a bound that is not negative, the shortlist has as many evaluations as the bound, or all of
-- them; no other evaluation has a higher score than one of the shortlist; the scores descend, and
-- equal scores keep the order of the matches.
pub shortlist-Ranks :
    (n : ℕ) (resolved : List Resolved) (explanations : List MatchExplanation)
    → let best = shortlist (pos n) resolved explanations in
      (rest : List Evaluation) × Ranks (zip_evaluations resolved explanations) best rest
      × ((length best ≡ n) ⊎ ((length best ≤ n) × (rest ≡ [])))
unfolding shortlist slice
shortlist-Ranks n resolved explanations =
    let evaluations = zip_evaluations resolved explanations in
    let sorted = sort_desc score_of evaluations in
    (
      drop n sorted,
      sorted-Ranks evaluations (take n sorted) (drop n sorted) (take++drop n sorted),
      length-take n sorted,
    )

-- any bound takes a prefix of the sorted evaluations
pub shortlist-All :
    (P : Evaluation → Type 0) (n : ℤ) (resolved : List Resolved)
    (explanations : List MatchExplanation)
    → All P (zip_evaluations resolved explanations)
    → All P (shortlist n resolved explanations)
      × IsDescending score_of (shortlist n resolved explanations)
unfolding shortlist slice
shortlist-All P (pos n) resolved explanations h =
    let evaluations = zip_evaluations resolved explanations in
    (
      All-take P n (sort_desc score_of evaluations) (All-sort score_of P evaluations h),
      IsDescending-take score_of n (sort_desc score_of evaluations)
          (sort-IsDescending score_of evaluations),
    )
shortlist-All P (negsuc n) resolved explanations h =
    let evaluations = zip_evaluations resolved explanations in
    let sorted = sort_desc score_of evaluations in
    (
      All-take P _ sorted (All-sort score_of P evaluations h),
      IsDescending-take score_of _ sorted (sort-IsDescending score_of evaluations),
    )
