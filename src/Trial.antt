-- ===== src/Trial.antt =====
-- app/trial: anonymous identities with their grants for each address, and the conversations that an
-- anonymous client keeps in the process.
pub mod Identity
pub mod Manager
pub mod Conversations
