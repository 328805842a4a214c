-- ===== src/Agent.antt =====
-- internal/resource/agent: the controller of HarnessGitopsAgent.
pub mod Client
pub mod Types
pub mod Identity
pub mod Sdk
pub mod Environment
pub mod Status
pub mod Health
pub mod Registration
pub mod Token
pub mod Finalizers
pub mod Dependencies
pub mod Deletion
pub mod Reconcile
pub mod Calls
pub mod Tests
