-- ===== src/System/Serves.antt =====
-- Whole requests and messages beside the contract of the tables of app/models/db.py.
use resume_screening_service.Common.{◌≡◌, true, ap, sym, subst, ◌∙◌}
use resume_screening_service.Errors.{Exn, Result, ok, raised}
use resume_screening_service.Models.{Uuid}
use resume_screening_service.Services.{Env}
use resume_screening_service.Session.{World, Action, constraints_hold, catch, ◌>>=◌}
use resume_screening_service.Embeddings.Tables.{KeepsTables}
use resume_screening_service.System.Moves.{Moves, Moves-of_same}

-- From consistent committed tables, what `m` commits is some commits of rows of one tenant.
pub record Serves {ℓ} {A : Type ℓ} (env : Env) (m : Action A) : Type 0 where
  pub moves :
      (w : World)
      → constraints_hold w.saved ≡ true
      → (t : Uuid) × Moves env.show_uuid t w.saved (m w).1.saved

module _ (env : Env) where
  module _ {ℓ κ} {A : Type ℓ} {B : Type κ} where
    pub Serves-after_reads :
        (m : Action A) (f : A → Action B)
        → KeepsTables m
        → ((a : A) → Serves env (f a))
        → Serves env (m >>= f)
    Serves-after_reads m f km kf = record { moves = λ w h. pick w (m w) h (km.same w).1 }
      where
        pick :
            (w : World) (o : Result A × World)
            → constraints_hold w.saved ≡ true
            → o.1.saved ≡ w.saved
            → (t : Uuid) × Moves env.show_uuid t w.saved
                (elim o.0 as (λ _. Result B × World) [
                  | ok a ↦ f a o.1
                  | raised e ↦ (raised e, o.1)
                ]).1.saved
        pick w (ok a, w') h same =
            let (t, m') = (kf a).moves w' (ap constraints_hold same ∙ h) in
            (t, subst (λ db. Moves env.show_uuid t db (f a w').1.saved) same m')
        pick w (raised e, w') h same = (0, Moves-of_same env.show_uuid 0 w.saved w'.saved same)

    pub Serves-then_reads :
        (m : Action A) (f : A → Action B)
        → Serves env m
        → ((a : A) → KeepsTables (f a))
        → Serves env (m >>= f)
    Serves-then_reads m f km kf = record { moves = λ w h. pick w (m w) (km.moves w h) }
      where
        pick :
            (w : World) (o : Result A × World)
            → (t : Uuid) × Moves env.show_uuid t w.saved o.1.saved
            → (t : Uuid) × Moves env.show_uuid t w.saved
                (elim o.0 as (λ _. Result B × World) [
                  | ok a ↦ f a o.1
                  | raised e ↦ (raised e, o.1)
                ]).1.saved
        pick w (ok a, w') (t, m') =
            (t, subst (Moves env.show_uuid t w.saved) (sym ((kf a).same w').1) m')
        pick w (raised e, w') m' = m'

  module _ {ℓ} {A : Type ℓ} where
    pub Serves-of_reads : (m : Action A) → KeepsTables m → Serves env m
    Serves-of_reads m km = record {
      moves = λ w h. (0, Moves-of_same env.show_uuid 0 w.saved (m w).1.saved (km.same w).1);
    }

    -- The handler changes no row.
    pub Serves-catch :
        (m : Action A) (handler : Exn → Action A)
        → Serves env m
        → ((e : Exn) → KeepsTables (handler e))
        → Serves env (catch m handler)
    Serves-catch m handler km kh = record { moves = λ w h. pick w (m w) (km.moves w h) }
      where
        pick :
            (w : World) (o : Result A × World)
            → (t : Uuid) × Moves env.show_uuid t w.saved o.1.saved
            → (t : Uuid) × Moves env.show_uuid t w.saved
                (elim o.0 as (λ _. Result A × World) [
                  | ok a ↦ (ok a, o.1)
                  | raised e ↦ handler e o.1
                ]).1.saved
        pick w (ok a, w') m' = m'
        pick w (raised e, w') (t, m') =
            (t, subst (Moves env.show_uuid t w.saved) (sym ((kh e).same w').1) m')
