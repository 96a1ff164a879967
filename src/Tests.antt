-- ===== src/Tests.antt =====
-- Runs at concrete inputs: a server with small substitutes for the services, and tables with one
-- tenant, or two.
pub mod Sample
pub mod Access
pub mod Accounts
pub mod Pipeline
pub mod Screening
pub mod Requests
pub mod Upload
pub mod System
pub mod Migrations
