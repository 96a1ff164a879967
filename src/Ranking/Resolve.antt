-- ===== src/Ranking/Resolve.antt =====
-- The loop over the matches of app/services/ranking.py.
use mathlib.Core.List.{Memᴰ}
use resume_screening_service.Common.{
  String, ◌≡◌, refl, true, false, ◌&&◌, Option, none, some, List, [], ◌∷◌, arith, if◌then◌else◌,
  truthy, find, find-holds, find-Memᴰ, ◌==◌, nat_eq, eq_of_==,
}
use resume_screening_service.Common.Sort.Laws.{All}
use resume_screening_service.Errors.{Result, ok, raised}
use resume_screening_service.Models.{Uuid, Float, Candidate}
use resume_screening_service.Services.{Env}
use resume_screening_service.Session.{World, Database, Action, pure, or_raise, ◌>>=◌}
use resume_screening_service.Repositories.{get_candidate_by_id}
use resume_screening_service.Embeddings.{VectorMatch}
use resume_screening_service.Ranking.{Resolved, resolve, resolve_one, resolve_id, bad_uuid}

-- a row of the tenant
abbrev pub IsOwn : Uuid → Database → Candidate → Type 0
IsOwn t db c = Memᴰ c db.candidates × (c.tenant_id ≡ t)

module _ (env : Env) where
  found-IsOwn :
      (t id : Uuid) (db : Database) (c : Candidate)
      → find (λ (x : Candidate). x.id == id && x.tenant_id == t) db.candidates ≡ some c
      → IsOwn t db c
  found-IsOwn t id db c found =
      let is_wanted = λ (x : Candidate). x.id == id && x.tenant_id == t in
      let holds = find-holds is_wanted db.candidates c found in
      (
        find-Memᴰ is_wanted db.candidates c found,
        eq_of_== ⦃e = nat_eq⦄ c.tenant_id t (ground arith),
      )

  -- what resolved candidates are found to be, in a world that is left as it was
  abbrev pub Resolves : Uuid → World → Result (List Resolved) × World → Type 0
  Resolves t w (ok rs, w') = (w' ≡ w) × All (λ r. IsOwn t w.db r.0) rs
  Resolves t w (raised e, w') = w' ≡ w

  Resolves-cons :
      (t : Uuid) (w : World) (r : Resolved) (o : Result (List Resolved) × World)
      → IsOwn t w.db r.0
      → Resolves t w o
      → Resolves t w (
          (elim o.0 as (λ _. Result (List Resolved) × World) [
            | ok rs ↦ (ok (r ∷ rs), o.1)
            | raised e ↦ (raised e, o.1)
          ]))
  Resolves-cons t w r (ok rs, w') own h = (h.0, (own, h.1))
  Resolves-cons t w r (raised e, w') own h = h

  resolve_id-Resolves :
      (t id : Uuid) (score : Float) (rest : Action (List Resolved)) (w : World)
      → Resolves t w (rest w)
      → Resolves t w (resolve_id env t id score rest w)
  unfolding get_candidate_by_id
  resolve_id-Resolves t id score rest w h =
      pick (find (λ (x : Candidate). x.id == id && x.tenant_id == t) w.db.candidates)
        (found-IsOwn t id w.db)
    where
      pick :
          (c : Option Candidate)
          → ((x : Candidate) → c ≡ some x → IsOwn t w.db x)
          → Resolves t w (
              (elim c as (λ _. Action (List Resolved)) [
                | none ↦ rest
                | some x ↦ rest >>= λ rs. pure ((x, score) ∷ rs)
              ])
                w)
      pick none own = h
      pick (some x) own = Resolves-cons t w (x, score) (rest w) (own x refl) h

  resolve_one-Resolves :
      (t : Uuid) (text : String) (score : Float) (rest : Action (List Resolved)) (w : World)
      → Resolves t w (rest w)
      → Resolves t w (resolve_one env t text score rest w)
  resolve_one-Resolves t text score rest w h =
      elim (env.parse_uuid text)
        as (λ id. Resolves t w ((or_raise id bad_uuid >>= λ i. resolve_id env t i score rest) w)) [
          | none ↦ refl
          | some id ↦ resolve_id-Resolves t id score rest w h
        ]

  -- The matches resolve to candidates of the tenant, and reading them changes nothing.
  pub resolve-Resolves :
      (t : Uuid) (ms : List VectorMatch) (w : World) → Resolves t w (resolve env t ms w)
  unfolding resolve
  resolve-Resolves t [] w = (refl, tt)
  resolve-Resolves t (m ∷ ms) w =
      let rest = resolve env t ms in
      let later = resolve-Resolves t ms w in
      elim m.candidate_id
        as (λ id. Resolves t w (
          (elim id as (λ _. Action (List Resolved)) [
            | none ↦ rest
            | some text ↦ if truthy text then resolve_one env t text m.vector_score rest else rest
          ])
            w)) [
              | none ↦ later
              | some text ↦
                  elim (truthy text)
                    as (λ b.
                      Resolves t w
                        ((if b then resolve_one env t text m.vector_score rest else rest) w)) [
                          | true ↦ resolve_one-Resolves t text m.vector_score rest w later
                          | false ↦ later
                        ]
            ]
