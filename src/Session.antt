-- ===== src/Session.antt =====
-- The tables, a SQLAlchemy session over them (app/database.py), and the calls made so far. An
-- action runs on this world; after an exception the world is as the code left it.
mod Constraints
pub mod Laws
pub mod Inserts
pub mod Runs
pub use Constraints.{Database}
unfoldable pub use Constraints.{
  constraints_hold, tenants_hold, api_keys_hold, candidates_hold, jobs_hold, plans_hold,
  subscriptions_hold, match_results_hold, refers,
}
use resume_screening_service.Common.{
  ℕ, suc, Bool, Option, none, some, List, ◌∷◌, ◌≡◌, ⊤, if◌then◌else◌,
}
use resume_screening_service.Errors.{Exn, integrity_error, Result, ok, raised}
use resume_screening_service.Services.{Call, Env}
use resume_screening_service.Models.{Uuid}

-- `db` is what the session sees: the committed rows with its own changes. `saved` is what is
-- committed. `draws` counts the draws from the random source. `client_ready` and `index_ready`
-- are the two attributes of the vector store that are filled on first use.
pub record World : Type 0 where
  pub db : Database
  pub saved : Database
  pub calls : List Call
  pub draws : ℕ
  pub client_ready : Bool
  pub index_ready : Bool

abbrev pub Action {ℓ} : Type ℓ → Type ℓ
Action A = World → Result A × World

module _ {ℓ} {A : Type ℓ} where
  abbrev pub pure : A → Action A
  pure a w = (ok a, w)

  abbrev pub raise : Exn → Action A
  raise e w = (raised e, w)

  abbrev pub lift : Result A → Action A
  lift r w = (r, w)

  abbrev pub gets : (World → A) → Action A
  gets f w = (ok (f w), w)

  -- `db.query`, `db.scalar`, `db.scalars` and `db.get`, by what they compute from the tables
  abbrev pub query : (Database → A) → Action A
  query f w = (ok (f w.db), w)

  -- `try: m except …: handler`, where the handler raises again what it does not catch
  abbrev pub catch : Action A → (Exn → Action A) → Action A
  catch m handler w = let (r, w') = m w in elim r [ ok a ↦ (ok a, w') | raised e ↦ handler e w' ]

-- The tables are as they were, those of the session and those that are committed.
abbrev pub SameTables : World → World → Type 0
SameTables w w' = (w'.db ≡ w.db) × (w'.saved ≡ w.saved)

infixl 5 ◌>>=◌ ◌>>◌
abbrev pub ◌>>=◌ {ℓ κ} : {A : Type ℓ} {B : Type κ} → Action A → (A → Action B) → Action B
◌>>=◌ m f w = let (r, w') = m w in elim r [ ok a ↦ f a w' | raised e ↦ (raised e, w') ]

abbrev pub ◌>>◌ {ℓ κ} : {A : Type ℓ} {B : Type κ} → Action A → Action B → Action B
m >> k = m >>= λ _. k

abbrev pub raise_if : Bool → Exn → Action ⊤
raise_if c e w = (if c then raised e else ok tt, w)

-- a value that must be there
abbrev pub or_raise {ℓ} : {A : Type ℓ} → Option A → Exn → Action A
or_raise none e w = (raised e, w)
or_raise (some a) e w = (ok a, w)

-- a change of rows that the session holds
abbrev pub update : (Database → Database) → Action ⊤
update f w = (ok tt, record w { db = f w.db })

-- `db.commit()`: what breaks a constraint is rolled back and raised.
abbrev pub commit : Action ⊤
commit w =
    if constraints_hold w.db
    then (ok tt, record w { saved = w.db })
    else (raised integrity_error, record w { db = w.saved })

-- `db.flush()`
abbrev pub flush : Action ⊤
flush w =
    if constraints_hold w.db
    then (ok tt, w)
    else (raised integrity_error, record w { db = w.saved })

-- `db.rollback()`, and the `db.close()` of `get_db`: what is not committed is gone.
abbrev pub rollback : Action ⊤
rollback w = (ok tt, record w { db = w.saved })

-- A session of its own: `SessionLocal()` … `finally: db.close()`. Nothing uncommitted is seen
-- before, and nothing remains after.
abbrev pub in_session {ℓ} : {A : Type ℓ} → Action A → Action A
in_session m w = let (r, w') = m (record w { db = w.saved }) in (r, record w' { db = w'.saved })

module _ (env : Env) where
  -- a call of a service: it is made, and may fail
  abbrev pub perform : Call → Action ⊤
  perform c w =
      let w' = record w { calls = c ∷ w.calls } in
      elim (env.services.failure w.calls c) [ none ↦ (ok tt, w') | some e ↦ (raised e, w') ]

  -- the next draw from the random source, as its number
  abbrev pub draw : Action ℕ
  draw w = (ok w.draws, record w { draws = suc w.draws })

  -- `default=uuid.uuid4`
  abbrev pub new_id : Action Uuid
  new_id w = (ok (env.uuid4 w.draws), record w { draws = suc w.draws })
