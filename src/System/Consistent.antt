-- ===== src/System/Consistent.antt =====
-- What is committed (app/database.py) beside the constraints of app/models/db.py.
use resume_screening_service.Common.{
  Bool, true, false, Option, none, some, ◌≡◌, arith, if◌then◌else◌, ap, ◌∙◌,
}
use resume_screening_service.Errors.{Exn, Result, ok, raised}
use resume_screening_service.Session.{
  World, Database, Action, constraints_hold, pure, raise, lift, gets, query, catch, raise_if,
  or_raise, update, commit, flush, rollback, in_session, ◌>>=◌,
}
use resume_screening_service.Embeddings.Tables.{KeepsTables}

-- An action that commits only consistent tables.
pub record KeepsConsistent {ℓ} {A : Type ℓ} (m : Action A) : Type 0 where
  pub kept : (w : World) → constraints_hold w.saved ≡ true → constraints_hold (m w).1.saved ≡ true

module _ {ℓ κ} {A : Type ℓ} {B : Type κ} where
  pub KeepsConsistent-bind :
      (m : Action A) (f : A → Action B)
      → KeepsConsistent m
      → ((a : A) → KeepsConsistent (f a))
      → KeepsConsistent (m >>= f)
  KeepsConsistent-bind m f km kf = record { kept = λ w h. pick (m w) (km.kept w h) }
    where
      pick :
          (o : Result A × World)
          → constraints_hold o.1.saved ≡ true
          → constraints_hold
              (elim o.0 as (λ _. Result B × World) [
                | ok a ↦ f a o.1
                | raised e ↦ (raised e, o.1)
              ]).1.saved
            ≡ true
      pick (ok a, w') h = (kf a).kept w' h
      pick (raised e, w') h = h

module _ {ℓ} {A : Type ℓ} where
  pub KeepsConsistent-catch :
      (m : Action A) (handler : Exn → Action A)
      → KeepsConsistent m
      → ((e : Exn) → KeepsConsistent (handler e))
      → KeepsConsistent (catch m handler)
  KeepsConsistent-catch m handler km kh = record { kept = λ w h. pick (m w) (km.kept w h) }
    where
      pick :
          (o : Result A × World)
          → constraints_hold o.1.saved ≡ true
          → constraints_hold
              (elim o.0 as (λ _. Result A × World) [
                | ok a ↦ (ok a, o.1)
                | raised e ↦ handler e o.1
              ]).1.saved
            ≡ true
      pick (ok a, w') h = h
      pick (raised e, w') h = (kh e).kept w' h

  pub KeepsConsistent-in_session :
      (m : Action A) → KeepsConsistent m → KeepsConsistent (in_session m)
  KeepsConsistent-in_session m km = record { kept = λ w h. km.kept (record w { db = w.saved }) h }

  pub KeepsConsistent-of_tables : (m : Action A) → KeepsTables m → KeepsConsistent m
  KeepsConsistent-of_tables m km = record { kept = λ w h. ap constraints_hold (km.same w).1 ∙ h }

  pub KeepsConsistent-pure : (a : A) → KeepsConsistent (pure a)
  KeepsConsistent-pure a = record { kept = λ w h. h }

  pub KeepsConsistent-raise : (e : Exn) → KeepsConsistent (raise {A = A} e)
  KeepsConsistent-raise e = record { kept = λ w h. h }

  pub KeepsConsistent-lift : (r : Result A) → KeepsConsistent (lift r)
  KeepsConsistent-lift r = record { kept = λ w h. h }

  pub KeepsConsistent-gets : (f : World → A) → KeepsConsistent (gets f)
  KeepsConsistent-gets f = record { kept = λ w h. h }

  pub KeepsConsistent-query : (f : Database → A) → KeepsConsistent (query f)
  KeepsConsistent-query f = record { kept = λ w h. h }

  pub KeepsConsistent-or_raise : (o : Option A) (e : Exn) → KeepsConsistent (or_raise o e)
  KeepsConsistent-or_raise none e = record { kept = λ w h. h }
  KeepsConsistent-or_raise (some a) e = record { kept = λ w h. h }

  pub KeepsConsistent-if :
      (b : Bool) (m n : Action A)
      → KeepsConsistent m
      → KeepsConsistent n
      → KeepsConsistent (if b then m else n)
  KeepsConsistent-if true m n km kn = km
  KeepsConsistent-if false m n km kn = kn

pub KeepsConsistent-raise_if : (b : Bool) (e : Exn) → KeepsConsistent (raise_if b e)
KeepsConsistent-raise_if b e = record { kept = λ w h. h }

pub KeepsConsistent-update : (f : Database → Database) → KeepsConsistent (update f)
KeepsConsistent-update f = record { kept = λ w h. h }

pub KeepsConsistent-commit : KeepsConsistent commit
KeepsConsistent-commit = record { kept = λ w h. ground arith }

pub KeepsConsistent-flush : KeepsConsistent flush
KeepsConsistent-flush = record { kept = λ w h. ground arith }

pub KeepsConsistent-rollback : KeepsConsistent rollback
KeepsConsistent-rollback = record { kept = λ w h. h }

pub KeepsConsistent-option {ℓ κ} :
    {A : Type ℓ} {B : Type κ} (o : Option B) (m : Action A) (f : B → Action A)
    → KeepsConsistent m
    → ((b : B) → KeepsConsistent (f b))
    → KeepsConsistent (elim o as (λ _. Action A) [ none ↦ m | some b ↦ f b ])
KeepsConsistent-option none m f km kf = km
KeepsConsistent-option (some b) m f km kf = kf b

pub KeepsConsistent-set {ℓ} :
    {A : Type ℓ} (f : World → World) (a : A)
    → ((w : World) → (f w).saved ≡ w.saved)
    → KeepsConsistent (λ w. (ok a, f w))
KeepsConsistent-set f a same = record { kept = λ w h. ap constraints_hold (same w) ∙ h }

pub ruleset consistent_rules = (
  KeepsConsistent-bind, KeepsConsistent-catch, KeepsConsistent-in_session, KeepsConsistent-pure,
  KeepsConsistent-raise, KeepsConsistent-lift, KeepsConsistent-query, KeepsConsistent-or_raise,
  KeepsConsistent-if, KeepsConsistent-raise_if, KeepsConsistent-update, KeepsConsistent-commit,
  KeepsConsistent-flush, KeepsConsistent-rollback, KeepsConsistent-option,
)
