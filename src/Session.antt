-- ===== src/Session.antt =====
-- src/sync/sync_session.cpp and the declarations that it uses: the states of a sync session, what
-- each call does in each state, and the callbacks that wait for completion.
pub mod Data
pub mod State
pub mod Calls
pub mod Errors
pub mod Runs
pub mod Progress
