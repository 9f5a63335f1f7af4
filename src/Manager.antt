-- ===== src/Manager.antt =====
-- services/manager/internal/service: the processing of results, the loops over the stored documents, the
-- reconciliation of a current and a desired state, and the handlers of requests.
pub mod Counters
pub mod Stages
pub mod Process
pub mod Subject
pub mod Messages
pub mod Scheduled
pub mod Idle
pub mod Diff
pub mod Credentials
pub mod Reconcile
pub mod Pending
pub mod Handlers
