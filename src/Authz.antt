-- ===== src/Authz.antt =====
-- pkg/authz: the policy of operations (Policy), its decision (Check) and the merge of its layers
-- (Merge); the signed payloads (Signing), the tokens (Tokens) the table of tokens
-- (TokenTable), and what is done with them (Issuing, Consuming, Revoking, TokenLife).
pub mod Policy
pub mod Check
pub mod Merge
pub mod Signing
pub mod Tokens
pub mod TokenTable
pub mod Issuing
pub mod Consuming
pub mod Revoking
pub mod TokenLife
mod Samples
mod TokenSamples
