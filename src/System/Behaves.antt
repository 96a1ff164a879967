-- ===== src/System/Behaves.antt =====
-- Actions that commit only what the contract of the tables of app/models/db.py allows.
use resume_screening_service.Common.{
  ◌≡◌, ap, sym, subst, ◌∙◌, refl, true, false, Bool, ⊤, Bool-cases, inl, inr, if◌then◌else◌,
}
use resume_screening_service.Errors.{Exn, Result, ok, raised, integrity_error}
use resume_screening_service.Models.{Uuid}
use resume_screening_service.Services.{Env}
use resume_screening_service.Session.{
  World, Database, Action, SameTables, constraints_hold, pure, raise, catch, update, commit, ◌>>=◌,
}
use resume_screening_service.Embeddings.Tables.{KeepsTables}
use resume_screening_service.System.Moves.{Move, Moves, Moves-of_same, Moves-of_one}

-- Nothing is pending, and what is committed is consistent.
pub record IsClean (w : World) : Type 0 where
  pub clean : w.db ≡ w.saved
  pub holds : constraints_hold w.saved ≡ true

-- From a clean session, what `m` commits is some commits of rows of `t`.
pub record Behaves {ℓ} {A : Type ℓ} (env : Env) (t : Uuid) (m : Action A) : Type 0 where
  pub moves : (w : World) → IsClean w → Moves env.show_uuid t w.saved (m w).1.saved

IsClean-of_same : (w w' : World) → IsClean w → SameTables w w' → IsClean w'
IsClean-of_same w w' c same = record {
  clean = same.0 ∙ c.clean ∙ sym same.1;
  holds = ap constraints_hold same.1 ∙ c.holds;
}

module _ (env : Env) (t : Uuid) where
  module _ {ℓ κ} {A : Type ℓ} {B : Type κ} where
    pub Behaves-after_reads :
        (m : Action A) (f : A → Action B)
        → KeepsTables m
        → ((a : A) → Behaves env t (f a))
        → Behaves env t (m >>= f)
    Behaves-after_reads m f km kf = record { moves = λ w c. pick w (m w) c (km.same w) }
      where
        pick :
            (w : World) (o : Result A × World)
            → IsClean w
            → SameTables w o.1
            → Moves env.show_uuid t w.saved
                (elim o.0 as (λ _. Result B × World) [
                  | ok a ↦ f a o.1
                  | raised e ↦ (raised e, o.1)
                ]).1.saved
        pick w (ok a, w') c same =
            subst (λ db. Moves env.show_uuid t db (f a w').1.saved) same.1
              ((kf a).moves w' (IsClean-of_same w w' c same))
        pick w (raised e, w') c same = Moves-of_same env.show_uuid t w.saved w'.saved same.1

    pub Behaves-then_reads :
        (m : Action A) (f : A → Action B)
        → Behaves env t m
        → ((a : A) → KeepsTables (f a))
        → Behaves env t (m >>= f)
    Behaves-then_reads m f km kf = record { moves = λ w c. pick w (m w) (km.moves w c) }
      where
        pick :
            (w : World) (o : Result A × World)
            → Moves env.show_uuid t w.saved o.1.saved
            → Moves env.show_uuid t w.saved
                (elim o.0 as (λ _. Result B × World) [
                  | ok a ↦ f a o.1
                  | raised e ↦ (raised e, o.1)
                ]).1.saved
        pick w (ok a, w') h = subst (Moves env.show_uuid t w.saved) (sym ((kf a).same w').1) h
        pick w (raised e, w') h = h

  -- a commit of rows that the session has changed
  pub Moves-save :
      (db : Database) (w : World)
      → Move env.show_uuid t w.saved db
      → Moves env.show_uuid t w.saved (commit (record w { db = db })).1.saved
  Moves-save db w move = elim (Bool-cases (constraints_hold db)) [
    | inl held ↦ rw held (Moves-of_one env.show_uuid t w.saved db move held)
    | inr broken ↦ rw broken (Moves-of_same env.show_uuid t w.saved w.saved refl)
  ]

  module _ {ℓ} {A : Type ℓ} where
    pub Behaves-of_opened :
        (m : Action A)
        → ((w : World)
            → constraints_hold w.saved ≡ true
            → Moves env.show_uuid t w.saved (m (record w { db = w.saved })).1.saved)
        → Behaves env t m
    Behaves-of_opened m h = record {
      moves = λ w c.
          subst (λ db. Moves env.show_uuid t w.saved (m (record w { db = db })).1.saved)
            (sym c.clean) (h w c.holds);
    }

    pub Behaves-of_reads : (m : Action A) → KeepsTables m → Behaves env t m
    Behaves-of_reads m km = record {
      moves = λ w c. Moves-of_same env.show_uuid t w.saved (m w).1.saved (km.same w).1;
    }

    -- what the handler of a route does: it raises another exception
    pub Behaves-catch :
        (m : Action A) (handler : Exn → Exn)
        → Behaves env t m
        → Behaves env t (catch m (λ e. raise (handler e)))
    Behaves-catch m handler km = record { moves = λ w c. pick w (m w) (km.moves w c) }
      where
        pick :
            (w : World) (o : Result A × World)
            → Moves env.show_uuid t w.saved o.1.saved
            → Moves env.show_uuid t w.saved
                (elim o.0 as (λ _. Result A × World) [
                  | ok a ↦ (ok a, o.1)
                  | raised e ↦ (raised (handler e), o.1)
                ]).1.saved
        pick w (ok a, w') h = h
        pick w (raised e, w') h = h

    -- One change of rows and its commit.
    pub Moves-commit :
        (f : Database → Database) (a : A) (w : World)
        → IsClean w
        → Move env.show_uuid t w.saved (f w.saved)
        → Moves env.show_uuid t w.saved ((update f >>= λ _. commit >>= λ _. pure a) w).1.saved
    Moves-commit f a w c move = pick (constraints_hold (f w.db)) refl
      where
        pick :
            (b : Bool)
            → constraints_hold (f w.db) ≡ b
            → Moves env.show_uuid t w.saved (
                (λ (o : Result ⊤ × World).
                    (elim o.0 as (λ _. Result A × World) [
                      | ok x ↦ (ok a, o.1)
                      | raised e ↦ (raised e, o.1)
                    ]).1.saved)
                  (if b
                    then (ok tt, record w { db = f w.db; saved = f w.db })
                    else (raised integrity_error, record w { db = w.saved })))
        pick true e =
            Moves-of_one env.show_uuid t w.saved (f w.db)
              (subst (λ db. Move env.show_uuid t w.saved (f db)) (sym c.clean) move) e
        pick false e = Moves-of_same env.show_uuid t w.saved w.saved refl
