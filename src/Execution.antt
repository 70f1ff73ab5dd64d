-- ===== src/Execution.antt =====
-- paper_trading/execution: from a decision to an order.
pub mod Context
pub mod Gates
pub mod Manage
pub mod Pipeline
pub mod Orders
pub mod PaperBroker
pub mod Stacking
