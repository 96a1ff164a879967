-- ===== src/Repositories/Tenancy.antt =====
-- The reads of app/repositories/candidate_repository.py, for one tenant.
use mathlib.Core.List.{Memᴰ}
use resume_screening_service.Common.{
  ◌≡◌, ◌≢◌, subst, refl, ◌&&◌, List, arith, ◌==◌, nat_eq, ==-refl, eq_of_==, find, find-holds,
  find-Memᴰ, select-Memᴰ, Memᴰ-select, select, Option-cases, inl, inr,
}
use resume_screening_service.Common.Sort.{sort_desc}
use resume_screening_service.Common.Sort.Laws.{
  All, All-sort, All-of_Memᴰ, IsDescending, sort-IsDescending, sort-Memᴰ,
}
use resume_screening_service.Errors.{ok, raised}
use resume_screening_service.Models.{Uuid, Candidate}
use resume_screening_service.Session.{World}
use resume_screening_service.Repositories.{list_all_candidates, get_candidate_by_id}
use resume_screening_service.Candidates.{candidate_not_found, get_candidate}

-- The list of a tenant has its candidates and no other, latest first, each of them is in it, and
-- reading it changes nothing.
pub list_all_candidates-owned :
    (tenant_id : Uuid) (w : World)
    → (cs : List Candidate) × (list_all_candidates tenant_id w ≡ (ok cs, w))
      × All (λ c. Memᴰ c w.db.candidates × (c.tenant_id ≡ tenant_id)) cs
      × IsDescending (λ c. c.created_at) cs
      × ((c : Candidate) → Memᴰ c w.db.candidates → c.tenant_id ≡ tenant_id → Memᴰ c cs)
unfolding list_all_candidates
list_all_candidates-owned tenant_id w =
    let is_own = λ (c : Candidate). c.tenant_id == tenant_id in
    let key = λ (c : Candidate). c.created_at in
    let own = select is_own w.db.candidates in
    (
      sort_desc key own,
      refl,
      All-sort key (λ c. Memᴰ c w.db.candidates × (c.tenant_id ≡ tenant_id)) own
          (All-of_Memᴰ (λ c. Memᴰ c w.db.candidates × (c.tenant_id ≡ tenant_id)) own
            λ c m.
              let (stored, holds) = select-Memᴰ is_own w.db.candidates c m in
              (stored, eq_of_== ⦃e = nat_eq⦄ c.tenant_id tenant_id holds)),
      sort-IsDescending key own,
      λ c m same.
          sort-Memᴰ key c own
            (Memᴰ-select is_own c w.db.candidates m (rw same (==-refl ⦃e = nat_eq⦄ tenant_id))),
    )

-- A candidate that is read by its id is one of the tenant; with no such row the answer is the same
-- as for an id that no row has; nothing changes.
pub get_candidate-owned :
    (tenant_id candidate_id : Uuid) (w : World)
    → ((get_candidate tenant_id candidate_id w).1 ≡ w)
      × ((c : Candidate)
          → (get_candidate tenant_id candidate_id w).0 ≡ ok c
          → Memᴰ c w.db.candidates × (c.id ≡ candidate_id) × (c.tenant_id ≡ tenant_id))
      × (((c : Candidate) → Memᴰ c w.db.candidates → c.id ≡ candidate_id → c.tenant_id ≢ tenant_id)
          → (get_candidate tenant_id candidate_id w).0 ≡ raised candidate_not_found)
unfolding get_candidate get_candidate_by_id
get_candidate-owned tenant_id candidate_id w =
    let wanted = λ (c : Candidate). c.id == candidate_id && c.tenant_id == tenant_id in
    elim (Option-cases (find wanted w.db.candidates)) [
      | inl missing ↦ (ground arith, (λ c h. absurd (ground arith)), λ h. ground arith)
      | inr (x, found) ↦
          let holds = find-holds wanted w.db.candidates x found in
          let stored = find-Memᴰ wanted w.db.candidates x found in
          let id = eq_of_== ⦃e = nat_eq⦄ x.id candidate_id (ground arith) in
          let tenant = eq_of_== ⦃e = nat_eq⦄ x.tenant_id tenant_id (ground arith) in
          (
            ground arith,
            (λ c h.
                let same : x ≡ c = ground arith in
                subst
                  (λ y. Memᴰ y w.db.candidates × (y.id ≡ candidate_id) × (y.tenant_id ≡ tenant_id))
                  same (stored, id, tenant)),
            λ h. absurd (h x stored id tenant),
          )
    ]
