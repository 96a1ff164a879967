-- ===== src/EmbedText/Missing.antt =====
-- `_format_experience` of app/services/matching.py on values that an entry does not have.
use resume_screening_service.Common.{String, ◌<>◌, ◌≡◌, refl, none}
use resume_screening_service.Schemas.{ExperienceEntry, dump_experience}
use resume_screening_service.EmbedText.{experience_line, item}

-- An entry of a parsed resume is dumped with a key for every field, so that the defaults of the
-- prompt never stand in for a date that is missing: a position with no end date is shown with the
-- end 'None', and one with no start date with the start 'None'.
pub experience_line-dump_experience :
    (title company : String)
    → let entry : ExperienceEntry = record {
      title = title;
      company = company;
      start_date = none;
      end_date = none;
      description = none;
    } in
      experience_line (dump_experience entry)
      ≡ "- " <> (title <> (" at " <> (company <> (" (" <> ("None" <> (" – " <> ("None" <> ")")))))))
unfolding experience_line dump_experience item
experience_line-dump_experience title company = refl
