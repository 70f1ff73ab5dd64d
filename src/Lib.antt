-- ===== src/Lib.antt =====
-- The core of the trading engine: the parts that decide when it trades, when it stops, and what
-- it writes down.
--
-- The program runs in cycles. `EngineOrchestrator` (paper_trading/orchestrator/engine.py) drives
-- one `AssetActor` per asset (paper_trading/orchestrator/actor.py), which shields the others from
-- the failures of its engine. Behind the actors' work it reads the portfolio's value and asks
-- the drawdown check (risk/drawdown_controls.py, and the same code in
-- paper_trading/governance/drawdown_controls.py) and the circuit breaker
-- (paper_trading/orchestrator/health.py). A trip of these halts the engine until the drawdown has
-- recovered or somebody resets it. Signals for new trades pass the admission controller
-- (paper_trading/orchestrator/admission/controller.py) first. Actors write their events to a
-- write-ahead log (paper_trading/replay/wal.py). An asset's position
-- (eigencapital/domain/entities/position.py) lives in a position manager
-- (paper_trading/position/manager.py), is closed in parts by a scale-out plan (paper_trading/position/scale_out.py), and has its stop trailed
-- (paper_trading/position/adaptive_exit.py). A state machine of its own turns validity scores
-- into exposure (monitoring/validity_state_machine.py). The decision of an asset's model passes a
-- pipeline of stages (paper_trading/execution/decision_pipeline.py), which hold it back, protect
-- the open position (paper_trading/position/protection.py), flip it, and route what is left by
-- the entry policies (paper_trading/entry): to an order, or to a deferred entry that later bars
-- poll (paper_trading/services/entry_service.py). Orders go through an order manager and a broker
-- (paper_trading/execution/order_manager.py, paper_broker.py), in the size that a chain of
-- scalars gives them (shared/sizing_chain.py). Between the cycles the program keeps a performance
-- state of its trades (paper_trading/pek/perf), which the risk budget reads, and builds an
-- immutable snapshot of the portfolio (paper_trading/pek/state), which the admission controller
-- reads. The log of the actors can be played back, and a replay be compared with
-- snapshots of a first pass (paper_trading/replay/runner.py). The governance service
-- (paper_trading/services/governance_service.py) turns measurements into reasons to halt
-- an asset, and the risk registry (paper_trading/governance/risk_registry.py) turns its closed
-- trades into a recommendation.
--
-- Files, and the code they model:
--   Base, Base/*             helpers: tests on numbers, lists, windows, dictionaries, JSON values,
--                            and `Float`
--   Orchestrator/Actor       AssetActor: run_cycle, _handle_success, _handle_failure,
--                            _maybe_probe_recovery, the WAL events, reset
--   Orchestrator/Actor/*     its data in Records; its health over cycles; compute_health_snapshot
--   Orchestrator/Breaker     CircuitBreaker: check, record_daily_pnl, snapshot and restore
--   Orchestrator/Breaker/*   when it trips; its streak of losses
--   Orchestrator/Monitor     HealthMonitor: observe and its history; the rate limit of its
--                            recommendations in Monitor/Throttle
--   Orchestrator/Recovery    RecoveryScheduler: is_due, record_result, reset
--   Orchestrator/Halt        EngineOrchestrator: run_once, _pre_phase_pek (equity, cycle count and
--                            exposure), _phase_3_portfolio_health (3a to 3c),
--                            _check_auto_unhalt_eligibility, reset_emergency_halt, __init__ with a
--                            snapshot
--   Orchestrator/Halt/*      how a halt begins, lasts and ends
--   Admission, Admission/*   PortfolioAdmissionController (paper_trading/orchestrator/admission):
--                            fast_filter, rank_and_allocate, run_admission; its data in Contracts
--   Risk, Risk/Bounds        compute_drawdown, compute_exposure_multiplier,
--                            check_drawdown_circuit_breaker
--   Wal                      WalWriter and WalReader for one thread
--   Wal/Order, Wal/Reader    the log as a sequence; reading back what was written
--   Wal/Threads              the writer under several threads, as a step relation
--   Wal/LastSequence         _read_last_sequence over the bytes of the file
--   Replay                   ReplayRunner: apply with its handlers, replay, the views of the state;
--                            verify_continuity in Replay/Verify
--   Replay/*                 the handlers; which payloads a replay accepts; what
--                            verify_continuity compares
--   Position                 PositionIntent: the stop envelope, sizes and prices
--   Position/Manager         PositionManager, one function per method; its records in Records
--   Position/AdaptiveExit    AdaptiveExitEngine: reset and compute, by its stages
--   Position/ScaleOut        ScaleOutEngine: build_plan, check_tiers, remaining_targets
--   Position/Protection      PositionProtection.update; its floors in Protection/Floors
--   Entry                    EntryOptimizer.evaluate, ExecutionPolicyLayer.handle
--   Entry/Deferred           DeferredEntry; its life over calls in Deferred/Life
--   Entry/Gate               can_enter, record_stop_out, cooldown_penalty, drawdown_taper,
--                            effective_capital (paper_trading/services, asset_engine.py)
--   Entry/Polling            poll_pending_entries, _cancel_all_pending
--   Entry/Opening            open_position without stacking, and its checks
--   Entry/Sizing             SizingChain.compute (shared/sizing_chain.py)
--   Entry/Submit             _submit_to_broker, _compute_mt5_qty, _submit_mt5_order, and the
--                            multipliers of paper_trading/governance/multipliers.py
--   Entry/TakeProfit         compute_take_profit (paper_trading/entry/tp_compiler.py)
--   Execution/Context        DecisionContext, and what the stages read
--   Execution/Gates          the stages that hold a decision back or keep books on it
--   Execution/Manage         the stages that close, stack, put off and open
--   Execution/Pipeline       DEFAULT_STAGES and run_decision_pipeline; its theorems below it
--   Execution/Pipeline/Traces  the trace of the gates
--   Execution/Gates/*        the window of the last signals
--   Execution/Orders         OrderManager over a broker; its contract in Orders/Refinement
--   Execution/PaperBroker    PaperBroker; its data in PaperBroker/Records, its account in
--                            PaperBroker/Account
--   Execution/Stacking       StackingGate: should_stack, execute_stack; the opening of the layer is
--                            left to the caller; the risk of a layer in Stacking/Risk
--   Budget, Budget/Bounds    RiskEngineV2.compute_budget (paper_trading/pek/engine_v2.py)
--   Validity, Validity/*     ValidityStateMachine: transition, process_timeline, reset
--   Performance              PerformanceStateBuilder (paper_trading/pek/perf), and what
--                            _phase_4_persist of the orchestrator does with it
--   Performance/Trackers     its four trackers; what they count in Outcomes, the builder over cycles
--                            in Neutral
--   Governance               governance_service.py: the halt conditions and the validity update;
--                            what they come to in Conditions
--   Governance/Registry      RiskRegistry (paper_trading/governance/risk_registry.py): its windows,
--                            its tripwire and what it recommends
--   Portfolio                the builder of the portfolio's snapshot (paper_trading/pek/state);
--                            its gates in Gates, its limit of positions in Concurrent
--   Tests/*                  the theorems at concrete inputs
--
-- State is a record with the source's fields; a method is a function from the state and its
-- arguments to the new state and the result. What raises returns `none` or an `Outcome`. Clocks,
-- days, the engines of the assets, json, and what the disk does are arguments. Python's floats
-- are the record `Float` of Base/Floats, a parameter without laws; a theorem that needs a law
-- names it as a hypothesis, and Base/Fixed is a concrete one for the tests.
--
-- Fuel: only `read_back` has it, as much as the file has bytes, since each round reads at least
-- one; as many rounds as there are chunks are enough. All other loops recurse on lists.
--
-- NaN: where the position manager is given a price or a level, NaN is the `none` of an `Option`; a
-- JSON value may be NaN, which is one object (json loads it as one constant), so it is the same
-- as itself within a container and not equal to itself under `!=`. Otherwise a `Value`, and so
-- a level that a position has, is never NaN.
--
-- Not modelled: division by zero (the code tests its divisors or
-- takes prices to be positive), logging and alerts, the texts of messages, and the phases of a
-- cycle that are not named above, which reach the modelled state through the actors only and are
-- functions on them. Partial writes of the disk are in `flush_lines`. A replay takes the asset
-- that an event names to be a text. The MT5 terminal answers as an argument says, and the snapshot
-- of the portfolio has the fields that its readers use. The program's research
-- code, dashboards, data sources, MT5 bridge and configuration are left out.
pub mod Base
pub mod Validity
pub mod Orchestrator
pub mod Risk
mod Tests
pub mod Wal
pub mod Position
pub mod Admission
pub mod Entry
pub mod Execution
pub mod Budget
pub mod Replay
pub mod Performance
pub mod Governance
pub mod Portfolio
