-- ===== src/Node.antt =====
-- Registering a TEE node: tools/pkg/fccutils/registration.go, policy_consistency.go, governance.go,
-- and the polling of tee_calls.go.
pub mod Policy
pub mod Governance
pub mod Governed
pub mod Reverted
pub mod Named
pub mod Calls
pub mod Register
pub mod Disk
pub mod Resume
pub mod Skip
pub mod Recorded
pub mod Poll
