-- ===== src/Outreach.antt =====
-- Outreach drafts and their approvals (src/outreach, with src/db/schema/outreach.ts).
pub mod Model
pub mod Content
pub mod Transactions
pub mod Creation
pub mod Drafts
