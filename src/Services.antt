-- ===== src/Services.antt =====
-- What the program calls and does not implement: Pinecone, Ollama, S3, SQS, DynamoDB, Razorpay,
-- the password hash, the token and signature checks, and the clock, the random source and the
-- rendering of UUIDs. All of it is a parameter; the calls with an effect outside are values, so
-- that a run shows which were made.
use resume_screening_service.Common.{ℕ, String, Bool, Option, List}
use resume_screening_service.Common.Int.{ℤ}
use resume_screening_service.Errors.{Exn, Result}
use resume_screening_service.Config.{Settings}
use resume_screening_service.Models.{Uuid, Instant, Float}
use resume_screening_service.Schemas.{ParsedResume, MatchExplanation}

abbrev pub Bytes : Type 0
Bytes = List ℕ

-- A vector as `index.upsert` is given it.
pub record Vector : Type 0 where
  pub id : String
  pub embedding : List Float
  pub metadata : List (String × String)

-- An item of `results["matches"]`, as far as the code reads it.
pub record Match : Type 0 where
  pub candidate_id : Option String
  pub score : Option Float

-- The JSON value of a queue message: no value, or an object with texts.
pub data MessageBody : Type 0 where
  malformed : MessageBody
  object : List (String × String) → MessageBody

-- The input of the match prompt.
pub record MatchPrompt : Type 0 where
  pub job_title : String
  pub company : String
  pub job_description : String
  pub required_skills : String
  pub preferred_skills : String
  pub candidate_name : String
  pub candidate_summary : String
  pub candidate_skills : String
  pub candidate_experience : String
  pub candidate_education : String

pub data Call : Type 0 where
  embed_query : String → Call
  list_indexes : Call
  create_index : String → ℕ → Call
  open_index : String → Call
  upsert : Vector → String → Call
  query : List Float → ℤ → String → Call
  parse_prompt : String → Call
  match_prompt : MatchPrompt → Call
  put_object : String → String → Bytes → Call
  get_object : String → String → Call
  send_message : String → MessageBody → Call
  delete_message : String → String → Call
  update_item : String → String → String → Call
  create_subscription : String → ℕ → Call
  count_outcome : String → Call

pub record JwtPayload : Type 0 where
  pub sub : Option String
  pub iat : Instant
  pub exp : Instant

pub record GoogleClaims : Type 0 where
  pub sub : Option String
  pub email : Option String

pub record RazorpayResponse : Type 0 where
  pub status : String
  pub id : String
  pub short_url : String

-- The lists of calls are those made before, the latest first.
pub record Services : Type 0 where
  -- the exception of a call, if it fails
  pub failure : List Call → Call → Option Exn
  -- what a call that did not fail returns
  pub embedding : String → List Float
  pub indexes : List Call → List String
  pub matches : List Call → List Float → ℤ → String → List Match
  pub parsed : String → ParsedResume
  pub explanation : MatchPrompt → MatchExplanation
  pub stored_object : List Call → String → String → Bytes
  pub subscription : List Call → String → RazorpayResponse
  -- local computations of packages
  pub pdf_pages : Bytes → Result (List (Option String))
  pub decode_utf8 : Bytes → Option String
  pub signature_valid : String → String → String → Bool
  pub sha256_hex : String → String
  pub bcrypt_hash : ℕ → String → Result String
  pub bcrypt_check : String → String → Result Bool
  pub jwt_encode : JwtPayload → String → String
  pub jwt_decode : Instant → String → String → Option JwtPayload
  pub verify_google : String → String → Result GoogleClaims

pub record Env : Type 0 where
  pub settings : Settings
  pub services : Services
  pub now : Instant
  -- the draws of `uuid.uuid4` and `secrets.token_urlsafe`, by the number of draws before
  pub uuid4 : ℕ → Uuid
  pub token_urlsafe : ℕ → String
  -- `str(u)` and `UUID(text)`, which raises `ValueError` on `none`
  pub show_uuid : Uuid → String
  pub parse_uuid : String → Option Uuid
  -- `round(x, 4)`
  pub round4 : Float → Float

-- the server at another instant
abbrev pub at : Env → Instant → Env
at env t = record env { now = t }
