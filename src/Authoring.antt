-- ===== src/Authoring.antt =====
-- Authoring: src/app/services/workflow_service.py with its repositories.
pub mod Tables
pub mod Drafts
pub mod Publishing
pub mod Workflows
pub mod Keeping
pub mod Histories
pub mod Publications
