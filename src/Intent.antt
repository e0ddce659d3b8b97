-- ===== src/Intent.antt =====
-- backend/orchestrator/schemas.py and backend/orchestrator/validator.py: what a model extracted from
-- a prompt, and the intent that the validator makes of it.
pub mod Schemas
pub mod Times
pub mod Questions
pub mod Validator
pub mod Lengths
pub mod Candidates
pub mod Sound
