-- ===== src/Config.antt =====
-- `class Settings` of app/config.py: the values that the modelled code reads.
use resume_screening_service.Common.{ℕ, String}

pub record Settings : Type 0 where
  pub app_name : String
  pub vector_top_k : ℕ
  pub ranking_top_n : ℕ
  pub pinecone_api_key : String
  pub pinecone_index_name : String
  pub sqs_queue_url : String
  pub s3_bucket_name : String
  pub dynamodb_table_name : String
  pub razorpay_webhook_secret : String
  pub admin_username : String
  pub admin_password : String
  pub jwt_secret : String
  pub jwt_expiry_minutes : ℕ
  pub google_oauth_client_id : String
  pub free_tier_resume_limit : ℕ
