-- ===== src/Lib.antt =====
-- A model of Sentum, a trading program for spot markets, and what is proved of it.
--
-- The program takes candles and prices from an exchange (src/sentum/api), keeps them per symbol
-- (src/sentum/market), asks a strategy for signals (src/sentum/trader/strategy), checks an entry against
-- the limits (src/sentum/trader/risk, src/sentum/risk), and runs one position at a time
-- (src/sentum/trader/TradeEngine.cpp) on a simulated venue or, through an order manager, on the test
-- network of the exchange (src/sentum/trader/execution, src/sentum/trader/order).
--
-- Each part has a module:
--   Clock                src/sentum/time/Clock.hpp
--   Market.Types         src/sentum/market/MarketEvent.hpp, SymbolId.hpp and src/sentum/api/model/Kline.hpp
--   Market.Spsc          src/sentum/market/SpscRingQueue.hpp; Fifo has the queue that it refines, Threads the
--                        single accesses of its two threads
--   Market.Store         src/sentum/market/MarketDataStore.hpp; Buffer is one ring, Latest and Readers its
--                        list of candles, Alias and Names the names and ids that share a ring
--   Market.Indicators    src/sentum/market/IncrementalIndicators.hpp
--   Market.Latency       src/sentum/market/RuntimePerformanceMetrics.hpp
--   Market.Bus           src/sentum/market/MarketEventBus.hpp
--   Collector            src/sentum/collector: Parser is FastBinanceKlineParser.hpp, Symbols the table of symbols
--                        of Collector.cpp, Handler its handler of messages, and Queue its queue with the writer
--                        thread: Delivery and Runs are about what is written, Drain about the end
--   Scanner              src/sentum/scanner/SymbolScanner.cpp; Top is about the top symbol, Ranking about the list
--   Order.Types          src/sentum/trader/order/OrderTypes.hpp
--   Order.Manager        src/sentum/trader/order/OrderManager.hpp; Lifecycle and KillSwitch have its theorems
--   Order.Ledger         src/sentum/trader/order/ConfirmedPositionLedger.hpp
--   Order.Session        src/sentum/trader/order/LiveOrderSession.hpp
--   Execution.Simulated  src/sentum/trader/execution/SimulatedExecutionVenue.hpp; Fills has its theorems
--   Execution.Rules      src/sentum/trader/execution/ExchangeRules.hpp
--   Execution.Metadata   src/sentum/trader/execution/ExchangeMetadataCache.hpp
--   Execution.Testnet    src/sentum/trader/execution/TestnetStrategyRuntime.hpp
--   Risk.Config          src/sentum/trader/types/RiskConfig.hpp and src/sentum/trader/utils/RiskConfigLoader.cpp
--   Risk.Entry           src/sentum/trader/risk/RiskManager.hpp
--   Risk.Portfolio       src/sentum/trader/risk/PortfolioRiskManager.hpp
--   Risk.Daily           src/sentum/risk/RiskManager.cpp
--   Strategy             src/sentum/trader/strategy; Types is the interface, Frames the timeframes, Simple and
--                        Combined the strategies, Quiet when they do not buy
--   Strategy.Legacy      src/sentum/strategy/RsiStrategy.hpp and SmaStrategy.hpp
--   Trader.Paper         src/sentum/trader/paper/PaperAccount.hpp
--   Trader.Query         src/sentum/trader/TradeBuilder.cpp and TradeValidator.cpp; Fields is the round trip
--   Trader.Position      src/sentum/trader/types/TradePosition.hpp
--   Trader.Control       src/sentum/core/RuntimeControl.hpp
--   Trader.Engine        src/sentum/trader/TradeEngine.cpp; Exit, Entry and Guards are about one call, Books
--                        about a run
--   Core                 src/sentum/core/ExecutionEngine.cpp; Profits and Runs are about the paper account
--   Backtest             src/sentum/backtest/Backtest.hpp; Drawdown is about the metrics, Replay about the files
--   Research.Promotion   src/sentum/research/ModelPromotion.hpp; Gates is about one promotion, History about
--                        all calls of a registry
--   Research.Portfolio   src/sentum/research/PortfolioResearch.hpp; Accounts is about what its replay counts
-- Prelude and Circular hold shared notation and lemmas, Tests the runs at concrete inputs.
--
-- A method is a function from the object's state to the next state and its result. An exception is a value
-- (`Result`, or an `Option` where its text does not matter). A call under a lock is one step; where the
-- code gives the lock up in the middle, as `OrderManager::submit_market` does around the request to the
-- exchange, the call is two functions. Where a lock itself matters, as in Execution.Testnet, it is a field
-- of the state. Threads appear as orders of such steps. Readings of the clock are arguments, in
-- nanoseconds. A `double` is an element of an abstract type with the operations of `Float.Double`; a
-- theorem that needs facts of IEEE 754 takes them as `Float.IsFloat`, which hold also where there are NaN
-- and infinities, and Float.Fixed gives a concrete arithmetic that meets them and runs. Counters of 64
-- bits are natural numbers, except where the code relies on their wrapping. No function needs fuel: all
-- loops go over lists or count down.
--
-- In Core the main loop moves in three phases, between which the other threads may move; within a phase, and within
-- a step of another thread, nothing else happens, and writing the paper account's file does not throw.
--
-- Not modelled: the network clients, SQLite, files and the JSON library, whose answers are parameters; logs,
-- the dashboard and the terminal, which only show; the rest of the research platform.
pub mod Backtest
pub mod Circular
pub mod Clock
pub mod Collector
pub mod Core
pub mod Execution
pub mod Float
pub mod Market
pub mod Order
pub mod Prelude
pub mod Research
pub mod Risk
pub mod Scanner
pub mod Strategy
pub mod Tests
pub mod Trader
