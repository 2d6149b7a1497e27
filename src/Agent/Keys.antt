-- ===== src/Agent/Keys.antt =====
-- The private key formats of src/protocol/protocol_ssh_agent.h, a file each.
pub mod Dsa
pub mod Ecdsa
pub mod Ed25519
pub mod Rsa
pub mod RoundTrip
