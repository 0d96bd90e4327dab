-- ===== src/Incidents.antt =====
-- backend/app/incidents: the incident aggregate.
pub mod Model
pub mod Tables
pub mod Store
pub mod Audit
pub mod Timeline
pub mod Notes
pub mod Lifecycle
pub mod Severity
pub mod Candidate
pub mod Creation
pub mod Enrichment
pub mod Intake
pub mod Counts
pub mod Counted
pub mod Repeated
pub mod PlainText
pub mod Workflow
pub mod Report
pub mod Operations
pub mod Requests
pub mod Change
mod Rows
pub mod History
pub mod Trail
pub mod Versions
pub mod Revisions
