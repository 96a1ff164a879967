-- ===== src/Worker/Reliable.antt =====
-- The parser and the vector store of app/services when no service fails.
use resume_screening_service.Common.{
  String, ◌≡◌, refl, sym, subst, true, false, Bool, none, List, truthy, arith, if◌then◌else◌,
}
use resume_screening_service.Errors.{Result, ok, raised}
use resume_screening_service.Services.{parse_prompt, Call, Bytes, Env}
use resume_screening_service.Session.{World, Action, pure, gets, perform, ◌>>=◌}
use resume_screening_service.Embeddings.{
  make_client, client, embed_text, make_index, ensure_index, fill_index, index, upsert_candidate,
}
use resume_screening_service.ResumeParser.{
  extract_text_from_pdf, parse_resume_text, parse_resume_pdf,
}

-- No service fails, and the vector store has a key.
pub record IsReliable (env : Env) : Type 0 where
  pub answers : (before : List Call) (c : Call) → env.services.failure before c ≡ none
  pub has_key : truthy env.settings.pinecone_api_key ≡ true

-- `m` returns.
pub record Returns {ℓ} {A : Type ℓ} (m : Action A) : Type ℓ where
  pub value : World → A
  pub returned : (w : World) → (m w).0 ≡ ok (value w)

module _ {ℓ κ} {A : Type ℓ} {B : Type κ} where
  Returns-bind :
      (m : Action A) (f : A → Action B) → Returns m → ((a : A) → Returns (f a)) → Returns (m >>= f)
  Returns-bind m f km kf = record {
    value = λ w. (kf (km.value w)).value (m w).1;
    returned = λ w. pick (m w) (km.value w) (km.returned w);
  }
    where
      pick :
          (o : Result A × World) (a : A)
          → o.0 ≡ ok a
          → (elim o.0 as (λ _. Result B × World) [ ok x ↦ f x o.1 | raised e ↦ (raised e, o.1) ]).0
            ≡ ok ((kf a).value o.1)
      pick (r, w') a e =
          subst
            (λ (x : Result A).
              (elim x as (λ _. Result B × World) [ ok y ↦ f y w' | raised z ↦ (raised z, w') ]).0
              ≡ ok ((kf a).value w'))
            (sym e) ((kf a).returned w')

module _ {ℓ} {A : Type ℓ} where
  Returns-pure : (a : A) → Returns (pure a)
  Returns-pure a = record { value = λ w. a; returned = λ w. refl }

  Returns-gets : (f : World → A) → Returns (gets f)
  Returns-gets f = record { value = f; returned = λ w. refl }

  Returns-set : (f : World → World) (a : A) → Returns (λ w. (ok a, f w))
  Returns-set f a = record { value = λ w. a; returned = λ w. refl }

  Returns-if : (b : Bool) (m n : Action A) → Returns m → Returns n → Returns (if b then m else n)
  Returns-if true m n km kn = km
  Returns-if false m n km kn = kn

ruleset returns = (Returns-bind, Returns-pure, Returns-gets, Returns-if)

module _ (env : Env) (reliable : IsReliable env) where
  Returns-perform : (c : Call) → Returns (perform env c)
  Returns-perform c = record {
    value = λ w. tt;
    returned = λ w. let answer = reliable.answers w.calls c in ground arith;
  }

  Returns-client : Returns (client env)
  unfolding client make_client
  Returns-client = record {
    value = λ w. tt;
    returned = λ w. let key = reliable.has_key in ground arith;
  }

  Returns-embed_text : (text : String) → Returns (embed_text env text)
  unfolding embed_text
  Returns-embed_text text = search (returns, Returns-perform) depth 9

  Returns-make_index : Returns (make_index env)
  unfolding make_index
  Returns-make_index = search (returns, Returns-perform, Returns-client, Returns-embed_text) depth 9

  Returns-ensure_index : Returns (ensure_index env)
  unfolding ensure_index
  Returns-ensure_index =
      search (returns, Returns-perform, Returns-client, Returns-make_index) depth 12

  Returns-index : Returns (index env)
  unfolding index fill_index
  Returns-index =
      search (returns, Returns-set, Returns-perform, Returns-client, Returns-ensure_index) depth 14

  pub Returns-upsert_candidate :
      (id text : String) (metadata : List (String × String)) (namespace : String)
      → Returns (upsert_candidate env id text metadata namespace)
  unfolding upsert_candidate
  Returns-upsert_candidate id text metadata namespace =
      search (returns, Returns-perform, Returns-embed_text, Returns-index) depth 12

  pub parse_resume_pdf-returns :
      (file_bytes : Bytes) (text : String) (w : World)
      → extract_text_from_pdf env file_bytes ≡ ok text
      → truthy text ≡ true
      → (parse_resume_pdf env file_bytes w).0 ≡ ok (env.services.parsed text, text)
  unfolding parse_resume_pdf parse_resume_text
  parse_resume_pdf-returns file_bytes text w read given =
      let answer = reliable.answers w.calls (parse_prompt text) in ground arith
