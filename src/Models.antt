-- ===== src/Models.antt =====
-- The rows of app/models/db.py. A UUID is its number. An instant is a count of microseconds, and
-- a float the exact multiple that it is of the smallest positive double.
use resume_screening_service.Common.{ℕ, String, Option, List, Row}
use resume_screening_service.Common.Int.{ℤ}

abbrev pub Uuid : Type 0
Uuid = ℕ

abbrev pub Instant : Type 0
Instant = ℤ

abbrev pub Float : Type 0
Float = ℤ

-- An item of a JSONB list: a dict whose values are texts or `None`, or anything else, by its
-- `str`.
pub data Entry : Type 0 where
  dict : List (String × Option String) → Entry
  other : String → Entry

pub record Tenant : Type 0 where
  pub id : Uuid
  pub name : String
  pub email : Option String
  pub hashed_password : Option String
  pub google_sub : Option String
  pub created_at : Instant

pub record ApiKey : Type 0 where
  pub id : Uuid
  pub tenant_id : Uuid
  pub hashed_key : String
  pub key_prefix : String
  pub created_at : Instant
  pub revoked_at : Option Instant
  pub last_used_at : Option Instant

-- The four texts that the code assigns to `Candidate.status`.
pub data CandidateStatus : Type 0 where
  pending processing processed failed : CandidateStatus

pub record Candidate : Type 0 where
  pub id : Uuid
  pub tenant_id : Uuid
  pub full_name : Option String
  pub email : Option String
  pub phone : Option String
  pub summary : Option String
  pub skills : List String
  pub experience : List Entry
  pub education : List Entry
  pub raw_text : Option String
  pub pinecone_id : Option String
  pub status : CandidateStatus
  pub created_at : Instant

pub record Job : Type 0 where
  pub id : Uuid
  pub tenant_id : Uuid
  pub title : String
  pub company : Option String
  pub description : String
  pub required_skills : List String
  pub preferred_skills : List String
  pub pinecone_id : Option String
  pub created_at : Instant

-- `price` is in the smallest currency unit, and a quota of `None` is unlimited.
pub record Plan : Type 0 where
  pub id : Uuid
  pub name : String
  pub price : ℤ
  pub currency : String
  pub monthly_resume_quota : Option ℤ
  pub duration_months : ℤ
  pub razorpay_plan_id : String
  pub created_at : Instant

pub record Subscription : Type 0 where
  pub id : Uuid
  pub tenant_id : Uuid
  pub plan_id : Uuid
  pub status : String
  pub razorpay_subscription_id : String
  pub current_period_end : Option Instant
  pub created_at : Instant

pub record MatchResult : Type 0 where
  pub id : Uuid
  pub candidate_id : Uuid
  pub job_id : Uuid
  pub vector_score : Option Float
  pub llm_score : Option Float
  pub rank : Option ℕ
  pub explanation : Option String
  pub created_at : Instant

instance abbrev pub tenant_row : Row Tenant
tenant_row = record { key = λ r. r.id }

instance abbrev pub api_key_row : Row ApiKey
api_key_row = record { key = λ r. r.id }

instance abbrev pub candidate_row : Row Candidate
candidate_row = record { key = λ r. r.id }

instance abbrev pub job_row : Row Job
job_row = record { key = λ r. r.id }

instance abbrev pub plan_row : Row Plan
plan_row = record { key = λ r. r.id }

instance abbrev pub subscription_row : Row Subscription
subscription_row = record { key = λ r. r.id }

instance abbrev pub match_result_row : Row MatchResult
match_result_row = record { key = λ r. r.id }
