-- ===== src/Lib.antt =====
-- eth-proxy: an HTTP service that passes requests on to several Ethereum nodes.
--
-- A request comes in through the router, which calls a handler under the logging middleware
-- (proxy/http.go). The handler (proxy/api.go) reads the path parameter, calls a method of a
-- `SimpleEthClient` and writes one JSON response. The client is a `multiNodeClient`
-- (proxy/eth_client.go): it holds a list of nodes, calls them in order up to the first that answers,
-- and moves that node one place up. `BlockNumber` asks all of them and compares their heights, and
-- `/health` reports what it finds. client/client.go is a client of the HTTP interface.
--
-- Files:
--   Prelude.antt: lists, texts, decimal prints and signed numbers of Go, and `Run`, state passing
--     with `none` for a panic; Prelude/Assoc.antt has Go's maps with a text for a key. Json.antt: documents in place of the texts of encoding/json.
--   Ethereum.antt: what is used of go-ethereum, as a record of operations that every definition
--     takes, and the interface `SimpleEthClient`.
--   MultiNode.antt: `multiNodeClient`. `try_nodes` is the loop of `BalanceAt`, `TransactionByHash`,
--     `TransactionReceipt` and `SendTransaction`; `increase_node_priority` is `increaseNodePriority`;
--     `ask_heights` and `verdict` are the loop and the end of `BlockNumber`. MultiNode/New.antt:
--     `NewMultiNodeClient`, with MultiNode/New/Errors.antt on what it gives and MultiNode/New/Labels.antt on
--     the labels. The other modules below it state the properties: Priority and Failover on
--     one call, Convergence on repeated ones, Replies, Heights, Agreement and Verdicts on the heights,
--     Reorder, Calls and Invariant on sequences of calls. MultiNode/Concurrent.antt is the same code
--     with calls that run at the same time: `step` is what one call does under the lock, and `Steps`
--     mixes the steps of several calls. Alone, Nodes, Safety, Progress and Missed below it are on these.
--   Http.antt: `respondWithJSON`, `respondWithError` and `responseRecorder`, over the contract of a
--     `http.ResponseWriter`. Http/Delivery.antt: what a response does to a connection.
--     Http/Logging.antt: `logHTTPRequest`. Http/Race.antt: its end, for requests that are served at
--     once; Http/Race/Kept.antt and Http/Race/Lines.antt: the calls of the logger.
--   Api.antt: the handlers. Api/Answers.antt gives each one's answer apart from the writer;
--     Api/Statuses.antt is on the statuses, Api/Health.antt and Api/Unbarred.antt are on `/health`.
--   Service.antt: `makeProxyAPIs`, `routes`, `NewHTTPService`, `New`, `Start` and `Stop`.
--     Service/Routes.antt: the table that results. Service/Lifecycle.antt: the goroutine of `Start`
--     beside its caller, as steps in any order; Service/Lifecycle/Ends.antt: how they end.
--   Config.antt: proxy/config.go. Logger.antt: proxy/logger.go. Main.antt: cmd/eth-proxy/main.go.
--   Client.antt: client/client.go. Client/Decode.antt: what it reads of a document. Client/Server.antt,
--     Client/Reports.antt and Client/Transactions.antt: the client over the handlers.
--     Client/Outcomes.antt: what its values and errors say of a response.
--   Keys.antt, Keys/Record.antt, Keys/Data.antt, Keys/Pairs.antt: keys.
--     The first 518 of the 1000 records of each constant are there.
--   Network.antt: the parts together. Network/Patterns.antt and Network/Router.antt say what is relied
--     on of httprouter; Network/Serving.antt is a service that serves, with the variable `entry` of
--     each handle, its log, and the state behind the handlers; Network/Asked.antt gives the paths of an
--     endpoint, and Network/Methods.antt the methods of a request; Network/Calls.antt is one request,
--     Network/Session.antt several; Network/Reach.antt and Network/EndToEnd.antt are the client over it.
--     Network/Whole.antt: the service over the nodes; Network/Program.antt: what `main` serves;
--     MultiNode/Kept.antt and Api/Kept.antt: what they keep.
--   Stack.antt, Stack/Payment.antt, Stack/Record.antt: `NewTx` and `AddTx` of internal/stack/stack.go.
--     Stack/Mock.antt: `NewEthBackend` and `MockEthProxyService` of internal/stack;
--     Stack/Mock/Chains.antt: the chain that is opened; Stack/Mock/Cleanups.antt: the end of a test.
--   IntegrationTests.antt: the request of integrationtests/utils.go.
--   Tests.antt: runs at concrete inputs.
--
-- Bounds: a loop over the nodes runs for as many rounds as the list has nodes when it starts, as in the
-- source. Block heights are natural numbers: a Go `uint64` is one below 2 ^ 64, and the code only
-- compares and subtracts them, the smaller from the larger; Prelude/Words.antt has the subtraction of Go
-- that wraps around, with which MultiNode/Agreement.antt compares this one. A port is a signed number without bound.
--
-- The mutex of the nodes is what makes a step of MultiNode/Concurrent.antt one step; the readers' calls
-- of nodes, which the reading lock lets overlap, act on the world one after the other.
--
-- A `Line` is a call of `Warn` or `Debug`; whether it is written is up to the level of the logger. An
-- endpoint with a parameter is asked for with a last segment of letters and digits (`Fits`): what httprouter
-- and `net/url` make of other characters is left out.
--
-- Not modelled: the concurrency of handlers and of the client, outside the list of nodes and the end of
-- the logging middleware; the time limit of a call, which is part of what a node decides; the sockets
-- and the metrics; requests that match no route, or a route but for a slash or a letter's case, which
-- httprouter answers itself; the texts of JSON and the case of the members' names; the tests.
pub mod Prelude
pub mod Json
pub mod Ethereum
pub mod Config
pub mod Logger
pub mod Service
pub mod MultiNode
pub mod Http
pub mod Api
pub mod Client
pub mod Keys
pub mod IntegrationTests
pub mod Main
pub mod Network
pub mod Stack
pub mod Tests
