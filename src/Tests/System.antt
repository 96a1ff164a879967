-- ===== src/Tests/System.antt =====
-- The service on the sample tables: a created candidate, a message, and the operator's revocation.
use resume_screening_service.Common.{
  ◌≡◌, ◌≢◌, ◌∷◌, [], List, refl, none, some, true, get, put, find, distinct, contains, every, arith,
  map, inl, inr, strip, join,
}
use resume_screening_service.Common.Int.{pos}
use resume_screening_service.Errors.{ok, http_exception}
use resume_screening_service.Models.{Instant, ApiKey, processed, api_key_row, candidate_row}
use resume_screening_service.Schemas.{CandidateCreate}
use resume_screening_service.Services.{object, malformed, at, Env, Services, Call, count_outcome}
use resume_screening_service.Session.{
  World, Database, constraints_hold, tenants_hold, api_keys_hold, candidates_hold, jobs_hold,
  plans_hold, subscriptions_hold, match_results_hold,
}
use resume_screening_service.Auth.{require_tenant, require_api_key, require_raw_key}
use resume_screening_service.Routes.{Headers}
use resume_screening_service.Routes.Closed.{opened}
use resume_screening_service.Worker.{Message, run, handle_message}
use resume_screening_service.Worker.Batches.{all_messages, handled, run-handles_all}
use resume_screening_service.System.{Request, TenantRequest, AdminRequest, serve, serve_all}
use resume_screening_service.System.Moves.{History, IsAccount}
use resume_screening_service.System.Histories.{serve_all-History}
use resume_screening_service.System.Isolation.{rows_of, serve-isolated}
use resume_screening_service.System.Invariant.{IsSound, serve_all-IsSound}
use resume_screening_service.System.Keeps.{Keeps}
use resume_screening_service.System.Rows.{serve_all-Keeps}
use resume_screening_service.System.Revocation.{serve_all-revoked}
use resume_screening_service.System.Delivered.{later_env, handle_message-serve_all}
use resume_screening_service.Ingestion.{resume_uploaded}
use resume_screening_service.ResumeParser.{extract_text_from_pdf}
use resume_screening_service.Worker.Process.{QueueLaws, status_of}
use resume_screening_service.Worker.Settles.{deletion}
use resume_screening_service.Worker.Reliable.{IsReliable}
use resume_screening_service.Tests.Sample.{
  sample_env, sample_db, sample_world, sample_db_holds, world_of, acme_key, strokes, count-strokes,
  uploaded, sample_services,
}

abbrev headers : Headers
headers = record { authorization = none; x_api_key = some "key" }

abbrev grace : CandidateCreate
grace = record {
  full_name = "Grace";
  email = none;
  phone = none;
  summary = none;
  skills = [];
  experience = [];
  education = [];
  raw_text = none;
}

abbrev create_grace : TenantRequest
create_grace = TenantRequest.create_candidate grace

abbrev message : Message
message = record {
  receipt_handle = "r";
  body = object (
      ("candidate_id", "|||")
      ∷ ("tenant_id", "|")
      ∷ ("s3_bucket", "bucket")
      ∷ ("s3_key", "k")
      ∷ []);
}

abbrev requests : List (Instant × Request)
requests =
    (pos 6000000, Request.by_tenant headers create_grace)
    ∷ (pos 7000000, Request.deliver message)
    ∷ (
      pos 8000000,
      Request.by_operator (record { username = "admin"; password = "word" })
          (AdminRequest.revoke_api_key 11),
    )
    ∷ []

serve_all-History_example :
    History sample_env.show_uuid sample_db (serve_all sample_env requests sample_world).saved
serve_all-History_example = serve_all-History sample_env requests sample_world sample_db_holds

serve_all-Keeps_example : Keeps sample_db (serve_all sample_env requests sample_world).saved
serve_all-Keeps_example = serve_all-Keeps sample_env requests sample_world sample_db_holds

sample-IsSound : IsSound sample_env.show_uuid sample_db
unfolding strokes
sample-IsSound = record {
  accounts = (
    IsAccount.by_password "a@x.org" "hpass" refl refl refl,
    (IsAccount.by_operator refl refl refl, tt),
  );
  indexed = (
    record { vector = λ h. absurd (cc); named = λ h. absurd (cc) },
    (record { vector = λ h. refl; named = λ h. ("Ada", refl) }, tt),
  );
  own_vectors = (inl refl, (inr refl, tt));
  indexed_jobs = (refl, tt);
  own_matches = tt;
}

serve_all-IsSound_example :
    (constraints_hold (serve_all sample_env requests sample_world).saved ≡ true)
    × IsSound sample_env.show_uuid (serve_all sample_env requests sample_world).saved
serve_all-IsSound_example =
    serve_all-IsSound sample_env requests sample_world sample_db_holds sample-IsSound

-- the request is authenticated as tenant 1
is_not_globex : (require_tenant sample_env none (some "key") (opened sample_world)).0 ≢ ok 2
unfolding require_tenant require_api_key require_raw_key find get put constraints_hold tenants_hold
    api_keys_hold candidates_hold jobs_hold plans_hold subscriptions_hold match_results_hold
    distinct contains every
is_not_globex = λ h. ground arith

serve-isolated_example :
    rows_of 2 (serve sample_env (Request.by_tenant headers create_grace) sample_world).saved
    ≡ rows_of 2 sample_db
serve-isolated_example =
    serve-isolated sample_env headers create_grace 2 sample_world sample_db_holds is_not_globex

-- the key is revoked
abbrev revoked_key : ApiKey
revoked_key = record acme_key { revoked_at = some (pos 90) }

abbrev revoked_db : Database
revoked_db = record sample_db { api_keys = revoked_key ∷ [] }

revoked_db_holds : constraints_hold revoked_db ≡ true
unfolding constraints_hold tenants_hold api_keys_hold candidates_hold jobs_hold plans_hold
    subscriptions_hold match_results_hold get distinct contains every
revoked_db_holds = refl

key_is_found : get 11 revoked_db.api_keys ≡ some revoked_key
unfolding get find
key_is_found = refl

-- the server after the requests
abbrev revoked_world : World
revoked_world = opened (serve_all sample_env requests (world_of revoked_db))

serve_all-revoked_example :
    ((require_api_key (at sample_env (pos 9000000)) (some "key") revoked_world).0 ≢ ok 1)
    × ((require_tenant (at sample_env (pos 9000000)) none (some "key") revoked_world).0 ≢ ok 1)
    × (require_tenant (at sample_env (pos 9000000)) (some "Bearer x") (some "key") revoked_world
        ≡ require_tenant (at sample_env (pos 9000000)) (some "Bearer x") none revoked_world)
serve_all-revoked_example =
    serve_all-revoked sample_env requests (world_of revoked_db) revoked_key "key" (pos 9000000)
      revoked_db_holds key_is_found (λ h. absurd (cc)) refl "Bearer x" 1

-- a message that cannot be read, and the one above
abbrev batches : List (List Message)
batches = (record { receipt_handle = "q"; body = malformed } ∷ []) ∷ (message ∷ []) ∷ []

run-handles_all_example :
    run sample_env (map (λ b. ok b) batches) sample_world
    ≡ (ok tt, handled sample_env (all_messages batches) sample_world)
run-handles_all_example =
    run-handles_all sample_env (λ before receipt. refl) batches sample_world refl

-- the server while every service is down
abbrev down_services : Services
down_services = record sample_services { failure = λ before c. some (http_exception 500 "down") }

abbrev down_env : Env
down_env = record sample_env { services = down_services }

abbrev up_env : Env
up_env = later_env down_env requests sample_world (pos 9000000) sample_services

up_env-IsReliable : IsReliable up_env
up_env-IsReliable = record { answers = λ before c. refl; has_key = refl }

up_env-QueueLaws : QueueLaws up_env
up_env-QueueLaws = record {
  parse-show = count-strokes;
  foreign = λ before c e failure. absurd (cc);
}

abbrev uploaded_message : Message
uploaded_message = record { receipt_handle = "r1"; body = resume_uploaded down_env 3 1 }

handle_message-serve_all_example :
    let (result, w') =
      handle_message up_env uploaded_message (serve_all down_env requests sample_world) in
    (result ≡ ok tt)
    × (status_of 3 w'.saved ≡ some processed)
    × (earlier : List Call) × (w'.calls
        ≡ count_outcome "success" ∷ deletion up_env uploaded uploaded_message ∷ earlier)
unfolding get find extract_text_from_pdf strip join
handle_message-serve_all_example =
    handle_message-serve_all down_env requests sample_world (pos 9000000) sample_services
      up_env-IsReliable up_env-QueueLaws uploaded uploaded_message "Ada, engineer" sample_db_holds
      sample-IsSound refl refl refl refl
