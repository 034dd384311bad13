-- ===== src/Llm.antt =====
-- The chat-completions client of internal/llm/llm.go.
-- `Types` has the errors and replies, `Backoff` the delays, `Gate` the request slots, `Reply` what is
-- made of an answer, `Call` the retry loop, `Cost` the accounts.
pub mod Types
pub mod Backoff
pub mod Gate
pub mod Reply
pub mod Call
pub mod Cost
