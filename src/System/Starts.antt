-- ===== src/System/Starts.antt =====
-- The sessions of the routes and of the worker (app/database.py): an action in a session that has
-- changed nothing.
use resume_screening_service.Common.{Bool, Option, none, some, refl, ⊤}
use resume_screening_service.Errors.{Exn, Result, ok, raised}
use resume_screening_service.Services.{Env}
use resume_screening_service.Session.{
  Action, lift, raise_if, or_raise, raise, catch, in_session, ◌>>=◌,
}
use resume_screening_service.Embeddings.Tables.{KeepsTables}
use resume_screening_service.System.Moves.{Moves}
use resume_screening_service.Routes.Closed.{opened}
use resume_screening_service.System.Serves.{
  Serves, Serves-then_reads, Serves-of_reads, Serves-catch,
}

-- From a session that has changed nothing, what `m` commits is some commits of rows of one tenant.
pub record Starts {ℓ} {A : Type ℓ} (env : Env) (m : Action A) : Type 0 where
  pub serves : Serves env (λ w. m (opened w))

module _ (env : Env) where
  module _ {ℓ κ} {A : Type ℓ} {B : Type κ} where
    pub Starts-then_reads :
        (m : Action A) (f : A → Action B)
        → Starts env m
        → ((a : A) → KeepsTables (f a))
        → Starts env (m >>= f)
    Starts-then_reads m f km kf = record {
      serves = record { moves = (Serves-then_reads env (λ w. m (opened w)) f km.serves kf).moves };
    }

    -- a conversion, before anything is read or written
    pub Starts-after_lift :
        (r : Result A) (f : A → Action B) → ((a : A) → Starts env (f a)) → Starts env (lift r >>= f)
    Starts-after_lift (ok a) f kf = record { serves = record { moves = (kf a).serves.moves } }
    Starts-after_lift (raised e) f kf = record {
      serves = record { moves = λ w h. (0, Moves.here) };
    }

    pub Starts-after_or_raise :
        (o : Option A) (e : Exn) (f : A → Action B)
        → ((a : A) → Starts env (f a))
        → Starts env (or_raise o e >>= f)
    Starts-after_or_raise none e f kf = record {
      serves = record { moves = λ w h. (0, Moves.here) };
    }
    Starts-after_or_raise (some a) e f kf = record {
      serves = record { moves = (kf a).serves.moves };
    }

  pub Starts-after_raise_if {ℓ} :
      {A : Type ℓ} (b : Bool) (e : Exn) (f : ⊤ → Action A)
      → Starts env (f tt)
      → Starts env (raise_if b e >>= f)
  Starts-after_raise_if Bool.true e f kf = record {
    serves = record { moves = λ w h. (0, Moves.here) };
  }
  Starts-after_raise_if Bool.false e f kf = record { serves = record { moves = kf.serves.moves } }

  module _ {ℓ} {A : Type ℓ} where
    pub Starts-of_reads : (m : Action A) → KeepsTables m → Starts env m
    Starts-of_reads m km = record {
      serves = record { moves = λ w h. (Serves-of_reads env m km).moves (opened w) h };
    }

    pub Starts-catch :
        (m : Action A) (f : Exn → Exn) → Starts env m → Starts env (catch m (λ e. raise (f e)))
    Starts-catch m f km = record {
      serves = record {
        moves =
            (Serves-catch env (λ w. m (opened w)) (λ e. raise (f e)) km.serves
              (λ e. record { same = λ w. (refl, refl) })).moves;
      };
    }

    -- A session of its own starts so.
    pub Serves-in_session : (m : Action A) → Starts env m → Serves env (in_session m)
    Serves-in_session m km = record { moves = km.serves.moves }
