-- ===== src/Protocol.antt =====
-- `protocol/`: the connection state machine and the session manager.
pub mod StateMachine
pub mod SessionManager
