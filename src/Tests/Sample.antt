-- ===== src/Tests/Sample.antt =====
-- A server, and its tables, to run the code on.
use resume_screening_service.Common.{
  zero, suc, ◌+◌, String, ◌<>◌, ◌≡◌, refl, true, false, Option, none, some, [], ◌∷◌, ◌==◌,
  string_eq, get, distinct, contains, every,
}
use resume_screening_service.Common.Int.{pos}
use resume_screening_service.Errors.{ok}
use resume_screening_service.Config.{Settings}
use resume_screening_service.Models.{
  Uuid, Instant, Tenant, ApiKey, Candidate, Job, Plan, Subscription, pending, processed,
}
use resume_screening_service.Schemas.{ParsedResume}
use resume_screening_service.Services.{JwtPayload, Services, Env}
use resume_screening_service.Session.{
  Database, World, constraints_hold, tenants_hold, api_keys_hold, candidates_hold, jobs_hold,
  plans_hold, subscriptions_hold, match_results_hold,
}

abbrev pub sample_settings : Settings
sample_settings = record {
  app_name = "Resume Screening Service";
  vector_top_k = 10;
  ranking_top_n = 5;
  pinecone_api_key = "pinecone";
  pinecone_index_name = "resumes";
  sqs_queue_url = "queue";
  s3_bucket_name = "bucket";
  dynamodb_table_name = "statuses";
  razorpay_webhook_secret = "webhook";
  admin_username = "admin";
  admin_password = "word";
  jwt_secret = "secret";
  jwt_expiry_minutes = 60;
  google_oauth_client_id = "client";
  free_tier_resume_limit = 2;
}

-- a token is its subject after a mark, or another mark if it has none
unfoldable pub sign : JwtPayload → String → String
sign p key = elim p.sub [ none ↦ "n" | some s ↦ String.◌∷◌ "s" s ]

unfoldable pub check : Instant → String → String → Option JwtPayload
check t String.[] key = none
check t (String.◌∷◌ c s) key = some (record {
  sub = elim (String.◌∷◌ c "" == "s") [ false ↦ none | true ↦ some s ];
  iat = t;
  exp = t;
})

-- a number in strokes
unfoldable pub strokes : Uuid → String
strokes zero = ""
strokes (suc n) = String.◌∷◌ "|" (strokes n)

unfoldable pub count_strokes : String → Option Uuid
count_strokes String.[] = some 0
count_strokes (String.◌∷◌ c s) = elim (count_strokes s) [ none ↦ none | some n ↦ some (suc n) ]

abbrev pub sample_resume : ParsedResume
sample_resume = record {
  full_name = "Ada";
  email = some "ada@x.org";
  phone = none;
  summary = some "Engineer";
  skills = "python" ∷ [];
  experience = [];
  education = [];
}

abbrev pub sample_services : Services
sample_services = record {
  failure = λ before c. none;
  embedding = λ text. pos 1 ∷ pos 2 ∷ [];
  indexes = λ before. "resumes" ∷ [];
  matches = λ before v top_k namespace. [];
  parsed = λ text. sample_resume;
  explanation = λ p. record { score = pos 70; strengths = []; gaps = []; summary = "good" };
  stored_object = λ before bucket key. 37 ∷ [];
  subscription = λ before plan. record { status = "created"; id = "sub_9"; short_url = "u" };
  pdf_pages = λ bytes. ok (some "Ada, engineer" ∷ []);
  decode_utf8 = λ bytes. some "body";
  signature_valid = λ body signature key. signature == key;
  sha256_hex = λ text. "#" <> text;
  bcrypt_hash = λ salt password. ok ("h" <> password);
  bcrypt_check = λ password hashed. ok (("h" <> password) == hashed);
  jwt_encode = sign;
  jwt_decode = check;
  verify_google = λ token client. ok (record { sub = some token; email = some "g@x.org" });
}

abbrev pub sample_env : Env
sample_env = record {
  settings = sample_settings;
  services = sample_services;
  now = pos 5000000;
  uuid4 = λ n. 100 + n;
  token_urlsafe = λ n. "drawn";
  show_uuid = strokes;
  parse_uuid = count_strokes;
  round4 = λ x. x;
}

abbrev pub acme : Tenant
acme = record {
  id = 1;
  name = "Acme";
  email = some "a@x.org";
  hashed_password = some "hpass";
  google_sub = none;
  created_at = pos 10;
}

abbrev pub globex : Tenant
globex = record {
  id = 2;
  name = "Globex";
  email = none;
  hashed_password = none;
  google_sub = none;
  created_at = pos 20;
}

abbrev pub acme_key : ApiKey
acme_key = record {
  id = 11;
  tenant_id = 1;
  hashed_key = "#key";
  key_prefix = "key";
  created_at = pos 30;
  revoked_at = none;
  last_used_at = none;
}

abbrev pub monthly : Plan
monthly = record {
  id = 21;
  name = "Monthly";
  price = pos 900;
  currency = "INR";
  monthly_resume_quota = some (pos 50);
  duration_months = pos 1;
  razorpay_plan_id = "plan_1";
  created_at = pos 40;
}

abbrev pub acme_subscription : Subscription
acme_subscription = record {
  id = 31;
  tenant_id = 1;
  plan_id = 21;
  status = "created";
  razorpay_subscription_id = "sub_1";
  current_period_end = none;
  created_at = pos 50;
}

abbrev pub uploaded : Candidate
uploaded = record {
  id = 3;
  tenant_id = 1;
  full_name = none;
  email = none;
  phone = none;
  summary = none;
  skills = [];
  experience = [];
  education = [];
  raw_text = none;
  pinecone_id = none;
  status = pending;
  created_at = pos 60;
}

abbrev pub ada : Candidate
ada = record {
  id = 4;
  tenant_id = 1;
  full_name = some "Ada";
  email = none;
  phone = none;
  summary = none;
  skills = [];
  experience = [];
  education = [];
  raw_text = none;
  pinecone_id = some "candidate-||||";
  status = processed;
  created_at = pos 70;
}

abbrev pub developer : Job
developer = record {
  id = 5;
  tenant_id = 1;
  title = "Developer";
  company = none;
  description = "Writes code";
  required_skills = "python" ∷ [];
  preferred_skills = [];
  pinecone_id = some "job-|||||";
  created_at = pos 80;
}

abbrev pub sample_db : Database
sample_db = record {
  tenants = acme ∷ globex ∷ [];
  api_keys = acme_key ∷ [];
  candidates = uploaded ∷ ada ∷ [];
  jobs = developer ∷ [];
  plans = monthly ∷ [];
  subscriptions = acme_subscription ∷ [];
  match_results = [];
}

abbrev pub world_of : Database → World
world_of db = record {
  db = db;
  saved = db;
  calls = [];
  draws = 0;
  client_ready = false;
  index_ready = false;
}

abbrev pub sample_world : World
sample_world = world_of sample_db

pub sample_db_holds : constraints_hold sample_db ≡ true
unfolding constraints_hold tenants_hold api_keys_hold candidates_hold jobs_hold plans_hold
    subscriptions_hold match_results_hold get distinct contains every
sample_db_holds = refl

pub count-strokes : (u : Uuid) → count_strokes (strokes u) ≡ some u
unfolding count_strokes strokes
count-strokes zero = refl
count-strokes (suc n) = rw (count-strokes n) refl
