-- ===== src/Schemas.antt =====
-- The request and response bodies of app/models/schemas.py, and what a language model returns.
use resume_screening_service.Common.{ℕ, String, Bool, Option, some, List, [], ◌∷◌}
use resume_screening_service.Common.Int.{ℤ}
use resume_screening_service.Models.{Uuid, Instant, Float, Entry, dict}

pub record ExperienceEntry : Type 0 where
  pub title : String
  pub company : String
  pub start_date : Option String
  pub end_date : Option String
  pub description : Option String

pub record EducationEntry : Type 0 where
  pub degree : String
  pub institution : String
  pub graduation_year : Option String

-- `entry.model_dump()`: every field is a key, also one that is `None`.
unfoldable pub dump_experience : ExperienceEntry → Entry
dump_experience e = dict (
    ("title", some e.title)
    ∷ ("company", some e.company)
    ∷ ("start_date", e.start_date)
    ∷ ("end_date", e.end_date)
    ∷ ("description", e.description)
    ∷ [])

unfoldable pub dump_education : EducationEntry → Entry
dump_education e = dict (
    ("degree", some e.degree)
    ∷ ("institution", some e.institution)
    ∷ ("graduation_year", e.graduation_year)
    ∷ [])

pub record ParsedResume : Type 0 where
  pub full_name : String
  pub email : Option String
  pub phone : Option String
  pub summary : Option String
  pub skills : List String
  pub experience : List ExperienceEntry
  pub education : List EducationEntry

pub record CandidateCreate : Type 0 where
  pub full_name : String
  pub email : Option String
  pub phone : Option String
  pub summary : Option String
  pub skills : List String
  pub experience : List ExperienceEntry
  pub education : List EducationEntry
  pub raw_text : Option String

pub record JobCreate : Type 0 where
  pub title : String
  pub company : Option String
  pub description : String
  pub required_skills : List String
  pub preferred_skills : List String

pub record MatchExplanation : Type 0 where
  pub score : Float
  pub strengths : List String
  pub gaps : List String
  pub summary : String

pub record RankedCandidate : Type 0 where
  pub candidate_id : Uuid
  pub full_name : String
  pub vector_score : Float
  pub llm_score : Float
  pub rank : ℕ
  pub explanation : String
  pub strengths : List String
  pub gaps : List String

pub record ScreeningResponse : Type 0 where
  pub job_id : Uuid
  pub job_title : String
  pub total_candidates_screened : ℕ
  pub ranked_candidates : List RankedCandidate

pub record TokenResponse : Type 0 where
  pub access_token : String
  pub token_type : String
  pub tenant_id : Uuid

pub record ApiKeyCreateResponse : Type 0 where
  pub id : Uuid
  pub tenant_id : Uuid
  pub key_prefix : String
  pub created_at : Instant
  pub revoked_at : Option Instant
  pub last_used_at : Option Instant
  pub raw_key : String

pub record PlanCreate : Type 0 where
  pub name : String
  pub price : ℤ
  pub currency : String
  pub monthly_resume_quota : Option ℤ
  pub duration_months : ℤ
  pub razorpay_plan_id : String

pub record TenantUsageResponse : Type 0 where
  pub tenant_id : Uuid
  pub is_free_tier : Bool
  pub candidates_this_period : ℕ
  pub monthly_resume_quota : Option ℤ
  pub free_tier_limit : Option ℕ

pub record SubscribeResponse : Type 0 where
  pub subscription_id : Uuid
  pub status : String
  pub checkout_url : String

pub record ScreeningRequest : Type 0 where
  pub job_id : Uuid
  pub top_k : Option ℤ
  pub top_n : Option ℤ
