-- ===== src/Checkpoint.antt =====
-- Checkpoints: src/foundation/serialization/state_codec.hpp, src/langgraph/checkpoint.
pub mod Types
pub mod Hex
pub mod Keys
pub mod Payload
pub mod StorageSaver
pub mod Saver
pub mod Listing
pub mod Copy
