-- ===== src/Tests/Upload.antt =====
-- The theorems on the upload path and on the reads of a tenant, at the sample server.
use mathlib.Core.List.{Memᴰ}
use resume_screening_service.Common.{
  ◌≡◌, ◌∷◌, [], List, refl, none, some, get, distinct, contains, every, count, if◌then◌else◌,
}
use resume_screening_service.Common.Sort.Laws.{All, IsDescending}
use resume_screening_service.Errors.{ok, raised}
use resume_screening_service.Models.{Candidate, candidate_row, tenant_row}
use resume_screening_service.Schemas.{JobCreate}
use resume_screening_service.Session.{
  World, constraints_hold, tenants_hold, api_keys_hold, candidates_hold, jobs_hold, plans_hold,
  subscriptions_hold, match_results_hold,
}
use resume_screening_service.Repositories.{list_all_candidates, add_candidate}
use resume_screening_service.Repositories.Tenancy.{list_all_candidates-owned}
use resume_screening_service.Ingestion.{resume_uploaded, upload_resume_and_enqueue}
use resume_screening_service.Candidates.{placeholder, enqueue_resume_upload}
use resume_screening_service.Candidates.Enqueue.{Enqueued, enqueue_resume_upload-Enqueued}
use resume_screening_service.Jobs.{create_job}
use resume_screening_service.Jobs.Create.{Created, create_job-Created}
use resume_screening_service.Worker.{Message, field, handle_message}
use resume_screening_service.Worker.Process.{QueueLaws}
use resume_screening_service.Worker.Settles.{Settles, handle_message-Settles}
use resume_screening_service.Worker.Upload.{handle_message-enqueue_resume_upload}
use resume_screening_service.Notifier.{
  StreamRecord, handler, handle_records, notified, deserialize, unwrap,
}
use resume_screening_service.Notifier.Counts.{
  is_processed, is_readable, wrong_number, handler-counts,
}
use resume_screening_service.Tests.Sample.{
  sample_env, sample_db, sample_world, sample_db_holds, count-strokes, uploaded,
}

sample_env-QueueLaws : QueueLaws sample_env
sample_env-QueueLaws = record {
  parse-show = count-strokes;
  foreign = λ before c e failure. absurd (cc);
}

enqueue_resume_upload-Enqueued_example :
    Enqueued sample_env
      (placeholder sample_env 100 1)
      (37 ∷ [])
      sample_world
      (enqueue_resume_upload sample_env 1 (37 ∷ []) sample_world)
unfolding get
enqueue_resume_upload-Enqueued_example =
    enqueue_resume_upload-Enqueued sample_env 1 (37 ∷ []) sample_world sample_db_holds refl refl

-- the message of the uploaded candidate
abbrev message : Message
message = record { receipt_handle = "r1"; body = resume_uploaded sample_env 3 1 }

handle_message-Settles_example :
    Settles sample_env uploaded message (handle_message sample_env message sample_world)
unfolding get
handle_message-Settles_example =
    handle_message-Settles sample_env uploaded message sample_env-QueueLaws sample_world
      sample_db_holds refl refl

abbrev new_message : Message
new_message = record { receipt_handle = "r2"; body = resume_uploaded sample_env 100 1 }

abbrev enqueued_world : World
enqueued_world = (enqueue_resume_upload sample_env 1 (37 ∷ []) sample_world).1

upload_returns :
    enqueue_resume_upload sample_env 1 (37 ∷ []) sample_world
    ≡ (ok (placeholder sample_env 100 1), enqueued_world)
unfolding enqueue_resume_upload add_candidate upload_resume_and_enqueue get constraints_hold
    tenants_hold api_keys_hold candidates_hold jobs_hold plans_hold subscriptions_hold
    match_results_hold distinct contains every
upload_returns = refl

handle_message-enqueue_resume_upload_example :
    Settles sample_env
      (placeholder sample_env 100 1)
      new_message
      (handle_message sample_env new_message enqueued_world)
unfolding get
handle_message-enqueue_resume_upload_example =
    handle_message-enqueue_resume_upload sample_env sample_env-QueueLaws 1 (37 ∷ []) sample_world
      enqueued_world enqueued_world (placeholder sample_env 100 1) new_message sample_db_holds refl
      refl upload_returns refl refl

abbrev opening : JobCreate
opening = record {
  title = "Tester";
  company = some "Acme";
  description = "Tests code";
  required_skills = [];
  preferred_skills = [];
}

create_job-Created_example :
    Created sample_env 1 opening sample_world (create_job sample_env 1 opening sample_world)
create_job-Created_example = create_job-Created sample_env 1 opening sample_world

list_all_candidates-owned_example :
    (cs : List Candidate) × (list_all_candidates 1 sample_world ≡ (ok cs, sample_world))
    × All (λ c. Memᴰ c sample_db.candidates × (c.tenant_id ≡ 1)) cs
    × IsDescending (λ c. c.created_at) cs
    × ((c : Candidate) → Memᴰ c sample_db.candidates → c.tenant_id ≡ 1 → Memᴰ c cs)
list_all_candidates-owned_example = list_all_candidates-owned 1 sample_world

abbrev two_records : List StreamRecord
two_records =
    record {
      event_name = some "MODIFY";
      new_image = some (("status", ("S", "ai-processed") ∷ []) ∷ []);
    }
    ∷ record { event_name = some "REMOVE"; new_image = none }
    ∷ []

handler-counts_example : handler two_records ≡ (
    if every is_readable two_records
    then ok (count is_processed two_records)
    else raised wrong_number)
handler-counts_example = handler-counts two_records

two_records_are_handled : handler two_records ≡ ok 1
unfolding handler handle_records notified deserialize unwrap field
two_records_are_handled = refl
