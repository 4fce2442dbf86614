-- ===== src/Ratchet.antt =====
-- The Double Ratchet session of frontend/src/services/doubleRatchet.ts. `Primitives` holds what the
-- session calls and does not implement, the other modules its own code and their properties.
pub mod Primitives
pub mod Kdf
pub mod Session
pub mod Steps
pub mod Handshake
pub mod Messages
pub mod Calls
pub mod Ids
pub mod Delivery
pub mod Conversation
pub mod Agreement
pub mod Refusal
pub mod Replay
pub mod Turn
pub mod Stored
pub mod Toy
mod Examples
