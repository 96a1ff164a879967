-- ===== src/Lib.antt =====
-- The resume screening service: a multi-tenant web service that parses resumes, indexes them as
-- vectors, and ranks the candidates of a job with a language model.
--
-- A request is resolved to its tenant (Auth, with JwtAuth) or to the operator (AdminAuth), and
-- its route (Routes, AuthRoutes, Admin) calls a service in a session of its own. The services
-- keep everything in the tables; they call Pinecone and Ollama through the vector store
-- (Embeddings) and the parser (ResumeParser). An upload leaves a placeholder row, an object and
-- a message (Ingestion); the worker (Worker) takes the message and fills the row (Candidates);
-- the notifier (Notifier) reads the status that the worker wrote.
--
--   Models, Session           app/models/db.py, app/database.py: the rows, the constraints, and a
--                             SQLAlchemy session, as what it sees and what is committed
--   Schemas, Config, Errors   app/models/schemas.py, app/config.py, app/exceptions.py
--   Services                  what is called and not implemented here, as a parameter
--   Clock                     Python's instants and spans, with their overflows
--   JwtAuth, AdminAuth, Auth  app/jwt_auth.py, app/admin_auth.py, app/auth.py
--   Registration, AuthRoutes  app/services/tenant_registration_service.py, app/routers/auth.py
--   Repositories              app/repositories
--   Billing, BillingGuard     app/services/billing_service.py, app/billing_guard.py
--   Admin                     app/routers/admin.py
--   Embeddings, EmbedText     app/services/embeddings.py, the texts of app/services/ranking.py and
--                             of app/services/matching.py
--   ResumeParser, Ingestion   app/services/resume_parser.py, app/services/ingestion.py
--   Candidates, Jobs, Ranking app/services/candidate_service.py, job_service.py, ranking.py
--   Worker, Notifier          app/worker.py, infra/terraform/lambda/notifier/handler.py
--   Routes                    app/routers/candidates.py, jobs.py, screening.py, billing.py
--   Responses                 the answers of the routes that read, by app/models/schemas.py
--   Migrations                alembic/versions: the revisions and their downgrades, beside the tables of
--                             the models
--   System                    app/main.py: all routes and the messages of the worker, as requests
--
-- Code is an `Action`: a function of the world (the tables, the calls of services made so far,
-- the number of random draws, and whether the vector store has made its client and its index)
-- that gives a result or an exception, and the world that it leaves. Each function of the source
-- has a definition of its name; where it is long, its parts have names of their own. A function
-- with an early return or an `except` is split there.
--
-- The children of these modules hold proofs, and are named for what they are about: Session.Laws
-- and Session.Inserts for the constraints, Candidates.Process for the worker's part of a
-- candidate, Worker.Settles for the fate of a message, Ranking.Run for a screening,
-- Candidates.Filled for what a file fills in, Billing.Events for what Razorpay's events say,
-- Billing.Activation for a subscription and its first events. System.Moves is the contract of
-- the tables: what one commit may add or change. System.Behaves, Serves and Starts are the rules
-- by which a service, a request and a session keep to it, System.Accounts, Screening and Billed
-- apply them to the services, System.Services, Requests, Operators and Deliveries to the routes
-- and the worker; what the contract says of all requests is in System.Histories, Invariant (with
-- Matches), Isolation, Rows (with Keeps) and Revocation; System.Delivered is about a message
-- that is handled after them. Migrations has the meaning of Alembic's operations on a schema;
-- Migrations.Created has the tables that the revisions create, and Migrations.Revisions their
-- upgrades and downgrades. Tests has a sample server and runs on it.
--
-- The services fail as they like: whether a call fails, and how, is any function of the calls
-- before it. What a proof needs of a package is a named hypothesis of the theorem (TokenLaws,
-- PasswordLaws, QueueLaws, and IsReliable where no service is to fail). Python's integers,
-- instants and floats are whole numbers with a sign: a float is counted in the smallest positive
-- double, so that no comparison is lost. No definition runs on fuel but `str` of a number, which
-- has one more than the number; the endless loop of the worker takes the list of the batches
-- that it receives.
--
-- Not modelled: the updated_at columns, the lengths of the VARCHAR columns, concurrency of
-- sessions, the order of the calls in the ranking's thread pool, logging and metrics other than
-- the worker's counter, the wording of the prompts, and pydantic's checks of a request before
-- its handler runs, and an answer of Razorpay with no short_url.
pub mod Common
pub mod Errors
pub mod Config
pub mod Models
pub mod Schemas
pub mod Services
pub mod Session
pub mod Clock
pub mod JwtAuth
pub mod AdminAuth
pub mod Auth
pub mod Registration
pub mod AuthRoutes
pub mod Repositories
pub mod Billing
pub mod BillingGuard
pub mod Admin
pub mod Embeddings
pub mod EmbedText
pub mod ResumeParser
pub mod Ingestion
pub mod Candidates
pub mod Jobs
pub mod Ranking
pub mod Worker
pub mod Notifier
pub mod Routes
pub mod Responses
pub mod System
pub mod Migrations
pub mod Tests
