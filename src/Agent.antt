-- ===== src/Agent.antt =====
-- src/agent/agent.processor.ts: the worker that carries out a run.
pub mod Answer
pub mod Rounds
pub mod Sse
pub mod Requests
pub mod Resume
pub mod Finalize
pub mod Loop
pub mod Process
pub mod Ending
pub mod Invariant
pub mod Outcome
pub mod Leaves
pub mod Settles
pub mod Watched
pub mod LastAttempt
