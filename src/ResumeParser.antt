-- ===== src/ResumeParser.antt =====
-- From a PDF to a parsed resume: app/services/resume_parser.py.
use resume_screening_service.Common.{String, map, not, truthy, option_or, join, strip}
use resume_screening_service.Errors.{Exn, value_error, Result, ok, raised}
use resume_screening_service.Schemas.{ParsedResume}
use resume_screening_service.Services.{Bytes, parse_prompt, Env}
use resume_screening_service.Session.{Action, pure, lift, raise_if, perform, ◌>>=◌, ◌>>◌}

abbrev pub no_text : Exn
no_text = value_error "Could not extract text from PDF. The file may be scanned or empty."

module _ (env : Env) where
  open env use {services}

  unfoldable pub extract_text_from_pdf : Bytes → Result String
  extract_text_from_pdf file_bytes = elim (services.pdf_pages file_bytes) [
    | raised e ↦ raised e
    | ok pages ↦ ok (strip (join "\n" (map (λ page. option_or page "") pages)))
  ]

  unfoldable pub parse_resume_text : String → Action ParsedResume
  parse_resume_text resume_text = do
    perform env (parse_prompt resume_text)
    pure (services.parsed resume_text)

  unfoldable pub parse_resume_pdf : Bytes → Action (ParsedResume × String)
  unfolding extract_text_from_pdf parse_resume_text
  parse_resume_pdf file_bytes = do
    raw_text ← lift (extract_text_from_pdf file_bytes)
    raise_if (not (truthy raw_text)) no_text
    parsed ← parse_resume_text raw_text
    pure (parsed, raw_text)
