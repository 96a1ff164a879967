-- ===== src/Candidates/Filled.antt =====
-- The row that `process_pending_candidate` of app/services/candidate_service.py fills, beside the
-- file: app/services/resume_parser.py and the schemas of app/models/schemas.py.
use resume_screening_service.Common.{
  String, ◌≡◌, refl, true, Option, none, some, List, [], ◌∷◌, map, truthy, option_truthy, option_or,
  ap, sym, ◌∙◌, ◌<>◌, join, strip, arith, ◌==◌, string_eq, if◌then◌else◌, inl, inr,
}
use resume_screening_service.Errors.{ok, Result-cases}
use resume_screening_service.Models.{Candidate, Entry, dict, processing, processed}
use resume_screening_service.Schemas.{
  ParsedResume, ExperienceEntry, EducationEntry, dump_experience, dump_education,
}
use resume_screening_service.Services.{Bytes, Env}
use resume_screening_service.Session.{World}
use resume_screening_service.ResumeParser.{
  extract_text_from_pdf, parse_resume_text, parse_resume_pdf,
}
use resume_screening_service.Candidates.{with_parsed}

-- an email address, or none: an empty text is none
abbrev pub given_email : Option String → Option String
given_email none = none
given_email (some email) = if email == "" then none else some email

-- the items of an entry
abbrev pub experience_item : ExperienceEntry → Entry
experience_item e = dict (
    ("title", some e.title)
    ∷ ("company", some e.company)
    ∷ ("start_date", e.start_date)
    ∷ ("end_date", e.end_date)
    ∷ ("description", e.description)
    ∷ [])

abbrev pub education_item : EducationEntry → Entry
education_item e = dict (
    ("degree", some e.degree)
    ∷ ("institution", some e.institution)
    ∷ ("graduation_year", e.graduation_year)
    ∷ [])

email-given :
    (email : Option String) → (if option_truthy email then email else none) ≡ given_email email
email-given none = refl
email-given (some email) = ground arith

module _ (env : Env) where
  -- A row is filled with what the language model returns for the text of a file, which is the
  -- texts of its pages, one to a line; the row keeps its id, its tenant and its time.
  pub record IsFilled (c : Candidate) (file_bytes : Bytes) (done : Candidate) : Type 0 where
    pub pages : List (Option String)
    pub read : env.services.pdf_pages file_bytes ≡ ok pages
    pub raw_text : done.raw_text ≡ some (strip (join "\n" (map (λ page. option_or page "") pages)))
    pub given : truthy (strip (join "\n" (map (λ page. option_or page "") pages))) ≡ true
    pub parsed : ParsedResume
    pub returned :
        parsed ≡ env.services.parsed (strip (join "\n" (map (λ page. option_or page "") pages)))
    pub full_name : done.full_name ≡ some parsed.full_name
    pub email : done.email ≡ given_email parsed.email
    pub phone : done.phone ≡ parsed.phone
    pub summary : done.summary ≡ parsed.summary
    pub skills : done.skills ≡ parsed.skills
    pub experience : done.experience ≡ map experience_item parsed.experience
    pub education : done.education ≡ map education_item parsed.education
    pub status : done.status ≡ processed
    pub vector : done.pinecone_id ≡ some ("candidate-" <> env.show_uuid c.id)
    pub id : done.id ≡ c.id
    pub tenant : done.tenant_id ≡ c.tenant_id
    pub created : done.created_at ≡ c.created_at

  -- What the parser returns is of the text of the file.
  abbrev pub IsRead : Bytes → ParsedResume → String → Type 0
  IsRead file_bytes parsed text =
      (pages : List (Option String)) × (env.services.pdf_pages file_bytes ≡ ok pages)
      × (text ≡ strip (join "\n" (map (λ page. option_or page "") pages)))
      × (truthy text ≡ true)
      × (parsed ≡ env.services.parsed text)

  pub parse_resume_pdf-IsRead :
      (file_bytes : Bytes) (w : World) (parsed : ParsedResume) (text : String)
      → (parse_resume_pdf env file_bytes w).0 ≡ ok (parsed, text)
      → IsRead file_bytes parsed text
  unfolding parse_resume_pdf extract_text_from_pdf parse_resume_text
  parse_resume_pdf-IsRead file_bytes w parsed text h =
      elim (Result-cases (env.services.pdf_pages file_bytes)) [
        | inr (e, bad) ↦ absurd (ground arith)
        | inl (pages, good) ↦ (pages, good, ground arith, ground arith, ground arith)
      ]

  pub with_parsed-IsFilled :
      (c : Candidate) (file_bytes : Bytes) (parsed : ParsedResume) (text : String)
      → IsRead file_bytes parsed text
      → IsFilled c file_bytes (record (with_parsed c parsed text) {
        pinecone_id = some ("candidate-" <> env.show_uuid c.id);
      })
  unfolding dump_experience dump_education
  with_parsed-IsFilled c file_bytes parsed text (pages, read, is_text, given, returned) = record {
    pages = pages;
    read = read;
    raw_text = ap some is_text;
    given = ap truthy (sym is_text) ∙ given;
    parsed = parsed;
    returned = returned ∙ ap env.services.parsed is_text;
    full_name = refl;
    email = email-given parsed.email;
    phone = refl;
    summary = refl;
    skills = refl;
    experience = refl;
    education = refl;
    status = refl;
    vector = refl;
    id = refl;
    tenant = refl;
    created = refl;
  }

  -- The status before does not matter.
  pub IsFilled-of_started :
      (c : Candidate) (file_bytes : Bytes) (done : Candidate)
      → IsFilled (record c { status = processing }) file_bytes done
      → IsFilled c file_bytes done
  IsFilled-of_started c file_bytes done f = record {
    pages = f.pages;
    read = f.read;
    raw_text = f.raw_text;
    given = f.given;
    parsed = f.parsed;
    returned = f.returned;
    full_name = f.full_name;
    email = f.email;
    phone = f.phone;
    summary = f.summary;
    skills = f.skills;
    experience = f.experience;
    education = f.education;
    status = f.status;
    vector = f.vector;
    id = f.id;
    tenant = f.tenant;
    created = f.created;
  }
