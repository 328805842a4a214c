-- ===== src/Mapping.antt =====
-- internal/resource/projectmapping: the controller of HarnessGitopsProjectMapping.
pub mod Client
pub mod Types
pub mod Scope
pub mod Selection
pub mod Remote
pub mod Environment
pub mod Quiet
pub mod Ready
pub mod Claims
pub mod Eligibility
pub mod Arbitration
pub mod Verify
pub mod Create
pub mod Finalizers
pub mod CleanupIdentity
pub mod Cleanup
pub mod Finalize
pub mod Reconcile
pub mod Calls
pub mod Status
pub mod Events
pub mod Sdk
pub mod Tests
