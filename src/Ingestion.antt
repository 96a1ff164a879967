-- ===== src/Ingestion.antt =====
-- The producer half of the upload path: app/services/ingestion.py.
use resume_screening_service.Common.{String, ◌<>◌, [], ◌∷◌, ⊤}
use resume_screening_service.Models.{Uuid}
use resume_screening_service.Services.{Bytes, MessageBody, object, put_object, send_message, Env}
use resume_screening_service.Session.{Action, perform, ◌>>◌}

module _ (env : Env) where
  open env use {settings, show_uuid}

  abbrev pub resume_key : Uuid → String
  resume_key candidate_id = "uploads/" <> (show_uuid candidate_id <> ".pdf")

  -- the JSON value of the `resume-uploaded` message
  unfoldable pub resume_uploaded : Uuid → Uuid → MessageBody
  resume_uploaded candidate_id tenant_id = object (
      ("candidate_id", show_uuid candidate_id)
      ∷ ("tenant_id", show_uuid tenant_id)
      ∷ ("s3_bucket", settings.s3_bucket_name)
      ∷ ("s3_key", resume_key candidate_id)
      ∷ [])

  unfoldable pub upload_resume_and_enqueue : Uuid → Uuid → Bytes → Action ⊤
  unfolding resume_uploaded
  upload_resume_and_enqueue candidate_id tenant_id file_bytes = do
    perform env (put_object settings.s3_bucket_name (resume_key candidate_id) file_bytes)
    perform env (send_message settings.sqs_queue_url (resume_uploaded candidate_id tenant_id))
