-- ===== src/EmbedText.antt =====
-- The texts that are embedded (app/services/ranking.py) and the texts of the match prompt
-- (app/services/matching.py).
pub mod Missing
use resume_screening_service.Common.{
  String, ◌<>◌, Option, List, [], ◌∷◌, ◌++◌, map, join, option_or, text_or, show_option, ◌==◌,
  string_eq, if◌then◌else◌,
}
use resume_screening_service.Models.{Entry, dict, other, Candidate, Job}
use resume_screening_service.Services.{MatchPrompt}

-- `f"{d.get(key, default)}"`: the default stands in for a key that is missing, not for a value
-- that is `None`.
unfoldable pub item : String → String → List (String × Option String) → String
item key default [] = default
item key default ((k, v) ∷ d) = if k == key then show_option v else item key default d

-- the loops over the entries that are dicts
unfoldable pub experience_parts : List Entry → List String
experience_parts [] = []
experience_parts (dict d ∷ entries) =
    ("Experience: "
      <> (item "title" "None" d
          <> (" at " <> (item "company" "None" d <> (" - " <> item "description" "" d)))))
    ∷ experience_parts entries
experience_parts (other _ ∷ entries) = experience_parts entries

unfoldable pub education_parts : List Entry → List String
education_parts [] = []
education_parts (dict d ∷ entries) =
    ("Education: " <> (item "degree" "None" d <> (" from " <> item "institution" "None" d)))
    ∷ education_parts entries
education_parts (other _ ∷ entries) = education_parts entries

unfoldable pub build_candidate_embed_text : Candidate → String
unfolding experience_parts education_parts
build_candidate_embed_text candidate = join "\n" (
    ("Name: " <> show_option candidate.full_name)
    ∷ ("Summary: " <> option_or candidate.summary "")
    ∷ ("Skills: " <> join ", " candidate.skills)
    ∷ (experience_parts candidate.experience ++ education_parts candidate.education))

unfoldable pub build_job_embed_text : Job → String
build_job_embed_text job =
    "Title: "
    <> (job.title
        <> ("\nCompany: "
            <> (option_or job.company ""
                <> ("\nDescription: "
                    <> (job.description
                        <> ("\nRequired Skills: "
                            <> (join ", " job.required_skills
                                <> ("\nPreferred Skills: " <> join ", " job.preferred_skills))))))))

unfoldable pub experience_line : Entry → String
unfolding item
experience_line (dict d) =
    "- "
    <> (item "title" "N/A" d
        <> (" at "
            <> (item "company" "N/A" d
                <> (" ("
                    <> (item "start_date" "?" d
                        <> (" – " <> (item "end_date" "Present" d <> ")")))))))
experience_line (other text) = "- " <> text

unfoldable pub education_line : Entry → String
unfolding item
education_line (dict d) =
    "- "
    <> (item "degree" "N/A" d
        <> (" from "
            <> (item "institution" "N/A" d <> (" (" <> (item "graduation_year" "N/A" d <> ")")))))
education_line (other text) = "- " <> text

-- `_format_experience`
unfoldable pub format_experience : List Entry → String
unfolding experience_line
format_experience [] = "None listed"
format_experience (e ∷ entries) = join "\n" (map experience_line (e ∷ entries))

-- `_format_education`
unfoldable pub format_education : List Entry → String
unfolding education_line
format_education [] = "None listed"
format_education (e ∷ entries) = join "\n" (map education_line (e ∷ entries))

-- The input that `generate_match_explanation` puts into the prompt.
unfoldable pub match_input : Job → Candidate → MatchPrompt
match_input job candidate = record {
  job_title = job.title;
  company = option_or job.company "N/A";
  job_description = job.description;
  required_skills = text_or (join ", " job.required_skills) "None specified";
  preferred_skills = text_or (join ", " job.preferred_skills) "None specified";
  candidate_name = show_option candidate.full_name;
  candidate_summary = option_or candidate.summary "Not provided";
  candidate_skills = text_or (join ", " candidate.skills) "None listed";
  candidate_experience = format_experience candidate.experience;
  candidate_education = format_education candidate.education;
}
