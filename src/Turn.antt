-- ===== src/Turn.antt =====
-- A chat turn: `SendMessage` of apps/api/src/aether/app/chat/send_message.py, over the message store,
-- the memory, the retrieval, the generator and the accounts. A run is the generator drained to its
-- end; other turns of the thread that run at the same time, and a database or a buffer that fails in
-- the middle of a turn, are not modelled.
pub mod Store
pub mod Ports
pub mod Replay
pub mod Generation
pub mod Execute
pub mod Reader
pub mod Loops
pub mod Protocol
pub mod Text
pub mod Kept
pub mod Outcome
pub mod Retry
pub mod Costs
pub mod Settled
pub mod Routed
