-- ===== src/Tests.antt =====
-- The definitions and the theorems at concrete inputs that meet their hypotheses.
mod StackCodec
mod Notes
mod Conversations
mod Server
mod Ranking
mod People
mod Answers
mod Requests
