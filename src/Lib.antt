-- ===== src/Lib.antt =====
-- QuantDSS backend (backend/app): from ticks to candles, from candidate signals of strategies to
-- an approved signal, its risk check, and the watch over the paper and live trades that follow.
--
-- Source paths below are under backend/app/.
--
-- Parts, and how they interact. Broker feeds fill the cache of market data and give ticks to the
-- candle aggregator; the health monitor keeps the state of the connection. Strategies turn candles
-- and their indicators into candidate signals (Signal). They wait in the signal pool for others of
-- their symbol. Those of one symbol pass the layers of the pipeline, each of which calls the next
-- on what it forwards; what comes out is checked by the risk engine, which reads the state of the
-- day and the configuration and counts the signals of a stock. Scanned signals may also be traded
-- by the auto trader, which closes and opens paper trades in batches and feeds the pool on a
-- schedule. Trades that are opened on paper are watched by the paper monitor, or by the trade
-- monitor worker, until their stop, their target or the end of the day. The auto trading worker
-- executes the signals that the risk engine has passed on, and gives back their risk reservations;
-- it does not ask route_execution. The trading mode says whether a signal is dropped, traded on
-- paper or sent to the broker. The broker reports on live trades by webhooks, whose handler is to
-- keep the protective orders of a trade and gives its outcome to the health monitor of its
-- strategy. The backtest engine runs a strategy and the risk engine over past candles.
--
--   Base            Python floats as an interface with the laws of their order, integers, dicts,
--                   texts as code points, exceptions; a fixed-point instance on which tests run
--   Signal          engine/base_strategy.py
--   SignalPool      engine/signal_pool.py
--   Strategies      engine/strategies: a module per strategy, and Registry (their common method)
--   AutoTrader      engine/auto_trader_engine.py: Trades and Entry (_close_trade, _open_trade), Batch
--                   (_process_batch), Queue (AutoTraderQueue), Schedule (run_auto_trader)
--   Monitor         workers/trade_monitor_worker.py, system/trading_state.py: paper trades; Live
--   TradeWorker     workers/autotrader_worker.py: Handle (_handle_signal),
--                   Paper (_execute_paper_trade)
--   Feed            ingestion/websocket_manager.py: Volume (VolumeDeltaTracker), Cache
--                   (MarketDataCache), Message (_parse_protobuf), Supervisor
--   Leases          core/redis_lock.py, engine/signal_dedup.py, over an interface of Redis
--   Ingestion       Candles: ingestion/candle_aggregator.py. Frames: ingestion/mtf_engine.py.
--                   Health: ingestion/health_monitor.py
--   Pipeline        Consolidation: engine/consolidation_layer.py. Meta: engine/meta_strategy_engine.py
--                   and the table of engine/regime_detector.py. Confirmation: confirmation_layer.py.
--                   Quality: quality_score_layer.py. Gates: market_regime_filter.py,
--                   time_filter_layer.py, liquidity_filter_layer.py. Front: the order of the layers
--                   in api/main.py from the consolidation to the regime filter
--   Risk            engine/risk_engine.py, models/risk_config.py, models/daily_risk_state.py: Types,
--                   Alerts, Rules (one function per rule), Engine (the chain and the second pass)
--   Paper           engine/paper_monitor.py, models/paper_trade.py
--   Execution       Mode: engine/trading_mode.py. Sharding: engine/sharding.py
--   Orders          engine/execution_manager.py, models/live_trade.py: Webhook (handle_webhook and the
--                   functions that are to place protective orders), Retry (the background task), Stale
--                   (cancel_stale_pending_orders), Reconcile (reconcile_orders, one trade at a time),
--                   Close (place_market_close_order, modify_order)
--   StrategyHealth  engine/strategy_health.py
--   Backtest        engine/backtest_engine.py: Trade and Engine (run), Metrics (_compute_metrics),
--                   WalkForward (walk_forward_test)
--
-- State is passed explicitly: an operation takes the record of the component and returns the new
-- one, with its answer. Code that may raise returns a Result beside the state that it left. A
-- layer of the pipeline is a function into Option: what it forwards, or nothing. Names are those
-- of the code.
--
-- Numbers. Integers are exact. Floats are a parameter: every definition that uses them is for any
-- type with the operations that the code calls, and a theorem on their order names the laws that
-- it needs. Times are microseconds since the epoch; a datetime is naive or aware.
--
-- Bounds and fuel. All loops run over lists that are given, but for that of walk_forward_test,
-- which takes the number of turns as fuel; two turns more than the last time suffice where the
-- windows move. The attempts to modify an order are three. The queue of batches keeps a hundred.
-- The history of an instrument keeps 5400 prices, and the supervisor of the websocket tries ten
-- times before its slow wait. The deque of recent ticks keeps twenty, the retries of a connection
-- are five, and the cooldown of an alert is five minutes, as in the code.
--
-- Not modelled: indicators and the detection of regimes (numeric analysis in pandas), the filters
-- by learned models, texts of log lines and alerts, the web API, database sessions and Redis
-- beyond what they store and return, the other workers, the subscriptions of the websocket and the
-- candles that are fetched after a gap, the placing of entry orders, the queue of cancellations,
-- the circuit breaker, the sum of risk reservations, the Sharpe ratio and the Monte Carlo runs of
-- a backtest, the workers that cannot be imported, and the user interface.
pub mod Base
pub mod Signal
pub mod SignalPool
pub mod Risk
pub mod Feed
pub mod Ingestion
pub mod Pipeline
pub mod Paper
pub mod Execution
pub mod AutoTrader
pub mod Backtest
pub mod Leases
pub mod Orders
pub mod Monitor
pub mod StrategyHealth
pub mod TradeWorker
pub mod Strategies
