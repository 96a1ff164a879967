-- ===== src/Session/Runs.antt =====
-- Runs of several actions of a session (app/database.py).
use resume_screening_service.Common.{◌≡◌, ap, true, false}
use resume_screening_service.Errors.{Exn, integrity_error, Result, ok, raised}
use resume_screening_service.Session.{Action, World, constraints_hold, commit, flush, ◌>>=◌}

-- what comes after an action that returns
pub bind_of_ok {ℓ κ} :
    {A : Type ℓ} {B : Type κ} (m : Action A) (f : A → Action B) (w w' : World) (a : A)
    → m w ≡ (ok a, w')
    → (m >>= f) w ≡ f a w'
bind_of_ok {B} m f w w' a h =
    ap (λ o. elim o.0 as (λ _. Result B × World) [ ok x ↦ f x o.1 | raised e ↦ (raised e, o.1) ]) h

pub commit_of_kept :
    (w : World) → constraints_hold w.db ≡ true → commit w ≡ (ok tt, record w { saved = w.db })
commit_of_kept w h = rw h

pub flush_of_kept : (w : World) → constraints_hold w.db ≡ true → flush w ≡ (ok tt, w)
flush_of_kept w h = rw h

-- what comes after an action that raises
pub bind_of_raised {ℓ κ} :
    {A : Type ℓ} {B : Type κ} (m : Action A) (f : A → Action B) (w w' : World) (e : Exn)
    → m w ≡ (raised e, w')
    → (m >>= f) w ≡ (raised e, w')
bind_of_raised {B} m f w w' e h =
    ap (λ o. elim o.0 as (λ _. Result B × World) [ ok x ↦ f x o.1 | raised x ↦ (raised x, o.1) ]) h

pub flush_of_broken :
    (w : World)
    → constraints_hold w.db ≡ false
    → flush w ≡ (raised integrity_error, record w { db = w.saved })
flush_of_broken w h = rw h
