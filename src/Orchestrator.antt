-- ===== src/Orchestrator.antt =====
-- paper_trading/orchestrator: the actors of the assets, the portfolio's breakers and recovery
-- timing, and the emergency halt of the engine.
pub mod Actor
pub mod Breaker
pub mod Halt
pub mod Monitor
pub mod Recovery
