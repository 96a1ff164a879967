-- ===== src/Candidates/Create.antt =====
-- `create_candidate` of app/services/candidate_service.py, by outcome.
use resume_screening_service.Common.{
  ◌≡◌, ◌⊎◌, inl, inr, ◌∷◌, List, map, refl, sym, ap, subst, ◌∙◌, suc, some, none, put, ==-refl,
  nat_eq, Bool-cases,
}
use resume_screening_service.Errors.{integrity_error, Result, ok, raised}
use resume_screening_service.Models.{Uuid, Candidate, processed, candidate_row}
use resume_screening_service.Schemas.{CandidateCreate, dump_experience, dump_education}
use resume_screening_service.Services.{Env}
use resume_screening_service.Session.{World, constraints_hold, pure, flush, ◌>>=◌}
use resume_screening_service.Session.Runs.{
  bind_of_ok, bind_of_raised, flush_of_kept, flush_of_broken,
}
use resume_screening_service.Repositories.{add_candidate}
use resume_screening_service.Candidates.{create_candidate, index_candidate, not_indexed}
use resume_screening_service.Candidates.Index.{vector_of, Indexed, index_candidate-Indexed}

put-head : (c x : Candidate) (cs : List Candidate) → c.id ≡ x.id → put c (x ∷ cs) ≡ c ∷ cs
unfolding put
put-head c x cs same = rw (same, ==-refl ⦃e = nat_eq⦄ x.id) refl

module _ (env : Env) (t : Uuid) (payload : CandidateCreate) where
  -- the row of a candidate, by its id
  abbrev pub row_of : Uuid → Candidate
  row_of id = record {
    id = id;
    tenant_id = t;
    full_name = some payload.full_name;
    email = payload.email;
    phone = payload.phone;
    summary = payload.summary;
    skills = payload.skills;
    experience = map dump_experience payload.experience;
    education = map dump_education payload.education;
    raw_text = payload.raw_text;
    pinecone_id = none;
    status = processed;
    created_at = env.now;
  }

  -- What a creation leaves, by how it ends: the candidate with the id of its vector is committed
  -- in front of the others, or the session is back at what was committed.
  abbrev pub Created : World → Result Candidate × World → Type 0
  Created w (ok c, w') =
      let row = row_of (env.uuid4 w.draws) in
      (c ≡ record row { pinecone_id = some (vector_of env row) })
      × (w'.db ≡ record w.db { candidates = c ∷ w.db.candidates })
      × (w'.saved ≡ w'.db)
  Created w (raised e, w') =
      ((e ≡ integrity_error) ⊎ (e ≡ not_indexed)) × (w'.db ≡ w.saved) × (w'.saved ≡ w.saved)

  abbrev with_row : World → World
  with_row w = record w {
    db = record w.db { candidates = row_of (env.uuid4 w.draws) ∷ w.db.candidates };
    draws = suc w.draws;
  }

  Created-of_Indexed :
      (w : World) (o : Result Candidate × World)
      → Indexed env (row_of (env.uuid4 w.draws)) (with_row w) o
      → Created w o
  Created-of_Indexed w (ok c, w') (is_row, db, saved) =
      let row = row_of (env.uuid4 w.draws) in
      (
        is_row,
        db
            ∙ ap (λ cs. record w.db { candidates = cs })
                (put-head c row w.db.candidates (ap (λ x. x.id) is_row)),
        saved,
      )
  Created-of_Indexed w (raised e, w') (is_error, db, saved) = (inr is_error, db, saved)

  -- A creation that returns has committed the candidate in front of the others, with the id of its
  -- vector; one that raises, a VectorIndexingError or the error of a constraint, leaves the session
  -- at what was committed before.
  pub create_candidate-Created : (w : World) → Created w (create_candidate env t payload w)
  unfolding create_candidate add_candidate
  create_candidate-Created w =
      let row = row_of (env.uuid4 w.draws) in
      let w1 = with_row w in
      let back = record w1 { db = w.saved } in
      let add = flush >>= λ done. pure row in
      elim (Bool-cases (constraints_hold w1.db)) [
        | inl held ↦
            subst (Created w)
              (sym (
                bind_of_ok add (index_candidate env t) w1 w1 row
                  (bind_of_ok flush (λ done. pure row) w1 w1 tt (flush_of_kept w1 held))))
              (Created-of_Indexed w (index_candidate env t row w1)
                (index_candidate-Indexed env t row w1))
        | inr broken ↦
            subst (Created w)
              (sym (
                bind_of_raised add (index_candidate env t) w1 back integrity_error (
                  bind_of_raised flush (λ done. pure row) w1 back integrity_error
                    (flush_of_broken w1 broken))))
              (inl refl, refl, refl)
      ]
