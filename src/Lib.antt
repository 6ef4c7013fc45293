-- ===== src/Lib.antt =====
-- The trading system under src/trading: pre-trade risk, order management and position accounting.
--
-- Strategies publish signals, each a full picture of the orders that a strategy wants to rest. The risk
-- engine answers every signal by a decision, the order management system turns approved legs into
-- orders, gateways report fills, and the position engine books them. The parts run on one bus with a
-- queue for each subscriber, so a handler is a function from a state and an event to a state.
--
-- Which file models what:
--   Base             shared names, lists, association lists, and the arithmetic of decimals
--   Core             src/trading/core/types.py, events.py, instruments.py
--   Oms.StateMachine src/trading/oms/state_machine.py: `validate_transition`, `is_terminal`
--   Oms.Order        src/trading/oms/order.py: `Order` and its methods
--   Oms.Store        src/trading/oms/engine.py: the map `_orders`
--   Oms.Response     the same file: `_handle_*`, the sweep's rollback, `_refresh_adopted_order`
--   Oms.Exposure     the same file: `working_exposures` and what is published of the open orders
--   Oms.Algo         src/trading/oms/execution_algos/base.py and the interface of oms/router.py
--   Oms.Twap         src/trading/oms/execution_algos/twap.py
--   Oms.Vwap         src/trading/oms/execution_algos/vwap.py
--   Oms.Immediate    src/trading/oms/execution_algos/immediate.py
--   Oms.Router       src/trading/oms/router.py: `DefaultExecutionRouter`
--   Oms.Engine       src/trading/oms/engine.py: the state, requests and cancels
--   Oms.Reconcile    the same file: `_reconcile_immediate` and self-trade prevention
--   Oms.Slicing      the same file: the algos' driving, `_reconcile_sliced`, `_reconcile_quotes`
--   Oms.Handlers     the same file: the handlers of bus events, the sweep, `terminalize_from_venue`
--   Oms.Adoption     the same file: `adopt_order`, `strategy_id_from_client_order_id`
--   Oms.Run          sequences of inputs to the OMS
--   Core.Rounding    src/trading/core/instruments.py: rounding to the tick and the lot
--   Position.LotBook src/trading/position/lots.py, accounting/lot_book.py
--   Position.Wavg    src/trading/position/accounting/wavg.py
--   Position.Book    src/trading/position/accounting: `make_book` and the protocol of the books
--   Position.Pnl     src/trading/position/pnl.py
--   Position.Engine  src/trading/position/engine.py and core/positions.py
--   Risk.KillSwitch  src/trading/risk/kill_switch.py
--   Risk.State       src/trading/risk/state.py: `RiskState` and its operations
--   Risk.Rules       src/trading/risk/base.py and the eight rules of src/trading/risk/rules
--   Risk.Engine      src/trading/risk/engine.py: rules, clamps and the verdict on a leg
--   Risk.Engine.Signal  the same file: `_on_signal`, the other handlers and the lifecycle
--   Feed.OrderBook   src/trading/feed_handler/order_book.py: snapshots, deltas and the best levels
--   Feed.View        the same file: `top_n`, `top_of_book`, `depth` and the events of a book
--   Feed.Sequencer   src/trading/feed_handler/sequencer.py
--   Feed.Engine      src/trading/feed_handler/engine.py: reconnection, circuit breaker, watchdog
--   Feed.DepthBook   src/trading/order_gateways/binance/depth_book.py: bootstrap and diffs
--   Bus.Asyncio      src/trading/event_bus/asyncio_bus.py
--   Binance.Translation  src/trading/order_gateways/binance/order_translation.py
--   Binance.Errors   src/trading/order_gateways/binance/errors.py
--   Binance.Gateway  src/trading/order_gateways/binance/order_gateway.py
--   Binance.UserData src/trading/order_gateways/binance/user_data.py
--   Binance.Bootstrap  src/trading/order_gateways/binance/state_bootstrap.py, with the OMS it calls
--   Binance.Reconciler  src/trading/order_gateways/binance/reconciler.py
--   Binance.RateLimiter  src/trading/order_gateways/rate_limiter.py
--   Venue.Matching   src/trading/order_gateways/sim_config.py and the rules of simulation.py
--   Venue.Simulation src/trading/order_gateways/simulation.py: the handlers
--   Venue.Lifecycle  the simulated venue and the OMS's order together
--   Backtest.Clock   src/trading/core/clock.py: `SimulatedClock`
--   Backtest.Schedule  src/trading/backtest/order_gateway.py: the heap of scheduled events
--   Backtest.Gateway the same file: the handlers
--   Backtest.Engine  src/trading/backtest/engine.py: the replay
-- The modules below each of these hold the lemmas and theorems on it, and Tests the examples.
--
-- Decimals are integers, counted in a unit that is small enough for all of them, and products are
-- exact. A quotient is rounded half to even, as the default context rounds, but to the unit and not
-- to 28 digits. Identifiers that the source makes of texts or UUIDs are numbers; texts of reasons and
-- log lines are left out. Floats that are only compared count thousandths. A mapping is an association
-- list with one entry for a key. The clock is an argument, and so is the bus: `accepts n` says whether
-- it takes the n-th event that a component publishes.
--
-- The loop that closes lots runs on fuel: it gets one round more than there are lots, and is done
-- then. So do the drains of the backtest, whose loops end only when the subscribers stop acting.
--
-- A handler of the OMS runs to its end before the next one starts: what other handlers may do at its
-- awaits is not modelled. The n-th order id that the OMS draws is n. The execution algorithms and the
-- router are parameters of the OMS, a record and a function.
--
-- A handler of a simulated venue runs to its end at one time: the waits for latencies are left out, and
-- the backtest gateway, which schedules instead, keeps its heap as a list in order. The random generator
-- and the test whether an instrument is the venue's are parameters; a split quantity is rounded to the
-- unit. What subscribes to the bus of a backtest is a world of its own. Binance is a world too, which
-- replies to a request or raises; JSON and texts are modelled from what they parse to.
--
-- Not modelled: the connectors and normalizers of the feed handler, the network side of the Binance
-- gateways and the other buses, which are I/O around the parts above or components still to come, and
-- the floating-point analytics and strategies.
pub mod Backtest
pub mod Base
pub mod Binance
pub mod Bus
pub mod Core
pub mod Feed
pub mod Oms
pub mod Position
pub mod Risk
pub mod Venue
