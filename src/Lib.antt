-- ===== src/Lib.antt =====
-- Models and proofs for ferroly, a Rust library of building blocks for services. The paths below begin
-- at the root of the repository; src stands for crates/ferroly/src.
--
-- Clients (src/clients). A caller asks the circuit breaker before a call and reports the result to it;
-- `retry` repeats a call with a backoff.
--   Clients/Breaker    breaker.rs: `can_execute`, `on_execution`, `trip`. A clock reading is a number of
--                      nanoseconds, the counters wrap around as u32. Breaker/Invariant has the
--                      invariant, Breaker/Trips opening, Breaker/Recovery the way back.
--   Clients/Retry      retry.rs: `backoff_for` with its saturating arithmetic, and the loop of `retry`
--                      over the results that the calls of the operation give.
-- The model router (src/genai/router) sends a request to the candidates of a route, one after another,
-- with a breaker for each candidate and the retry policy of Clients around each call.
--   Router/Data        capability.rs, task.rs, route.rs, error.rs and the error and request of src/genai.
--   Router/Execute     `execute` and `execute_stream` of default_router.rs, execute.rs. Providers, clock
--                      and registry are parameters. Execute/Fallback explains the results,
--                      Execute/Returns shows that runs return, Execute/Breakers follows the breakers.
--   Router/Ranking     strategy.rs, strategy_capability.rs, strategy_composite.rs: the rankings, over an
--                      abstract float. Ranking/Offers says which models are ranked, Ranking/Laws in which
--                      order, with the sort in Ranking/Sorting and its order in Ranking/Order.
--   Router/Resolve     `resolve_inner` and `route` of default_router.rs, the rule-based strategy.
--                      Resolve/Laws joins the ranking to the calls that are sent.
-- WebSockets (src/ws). The read loop takes the frames that `read_frame` reads from the buffered reader.
--   Ws/Frame           frame.rs, bytes being numbers below 256; the random mask is an argument.
--   Ws/Reader          `Reader` and `read_exact` of conn.rs, over the pieces that the transport returns.
--   Ws/Conn            `read_frame` of conn.rs. Ws/Conn/RoundTrip joins it to `encode`.
--   Ws/ReadLoop        `read_loop` of conn.rs: fragments, pings, close. `String::from_utf8_lossy` is a
--                      parameter. ReadLoop/Fragments and ReadLoop/Bounds follow the messages.
--   Ws/WriteLoop       `write_loop` of conn.rs; WriteLoop/Laws joins it to `read_frame`.
-- The web router (src/turbo/mod.rs) dispatches a request by method and path.
--   Turbo/Path         patterns, `match_path`, `Ctx::param`.
--   Turbo/Dispatch     `Router`, `Group` and `core_dispatch`; `Method` of src/http/core.rs. Dispatch/Loop
--                      follows the loop over the routes.
--   Turbo/Build        the builder methods, `layer` and `Next::run`.
--   Turbo/Percent      `percent_decode`, with `String::from_utf8_lossy` as a parameter.
-- The codecs (src/codec). A value is written as text and read back.
--   Codec/Value        `Value` of value.rs; an object keeps its entries in their order.
--   Codec/Fmt          fmt.rs: the writers of numbers. The text of a float is a parameter.
--   Codec/Json         json.rs. Json/Write has `JsonEncoder` and `emit_value` of traits.rs, with the text
--                      by recursion in Write/Render; Json/Read the parser's strings, Json/Parse its
--                      numbers, containers and `from_str`. Json/RoundTrip joins the two, Json/Total
--                      follows the parser on every input, Json/Deep on input that nests too deep.
-- The component manager (src/lifecycle) starts and stops components in the order of their dependencies.
--   Lifecycle/Graph    `topo_order` of manager.rs. Graph/Built has the graph that it builds, Graph/Kahn its
--                      loop, Graph/Orders what an order is, Graph/Knots which maps have one;
--                      Graph/Closure the two closures, with their steps in Closure/Steps and reachability
--                      in Closure/Reach.
--   Lifecycle/Manager  `ComponentManager` of manager.rs. Manager/Acyclic follows the dependency map,
--                      Manager/Starts and Manager/Runs starting and stopping everything, Manager/Stuck
--                      a start that was cut off; Manager/Single `start` and `stop` of one
--                      component, Manager/Closed what it needs. An id is a number, in the order of the strings.
-- Base holds what the modules share, Tests the runs and the theorems at concrete inputs.
--
-- Bounds and fuel: `read_exact` runs on fuel, the number of bytes wanted; every round that goes on adds
-- a byte, so it never runs out. The JSON parser takes two units for each byte of its input and two more:
-- one for each value or entry, and one for each byte in front of it; its string loops take the bytes that
-- are left. The loop of `topo_order` takes one unit for each node, which it visits once; those of
-- the closures one for the first id and one for each entry, which is pushed once. `Next::run` runs
-- on the number of middlewares, one for each step. All
-- other loops are structural, over the list that they consume. Sizes of type usize are not bounded,
-- except where a theorem's conditions bound them; `read_frame` takes usize to have 64 bits.
--
-- Not modelled: sockets, TLS, HTTP, the runtime and logging (input and output); YAML, TOML, XML and the
-- streaming decoder of JSON; the message broker and the model registry; concurrent callers of the
-- component manager; what f64 computes, which the rankings take
-- as a parameter; what `sort_by` does when scores are NaN; the providers and the components, which are
-- third parties; interleavings of several requests in one model router; I/O errors in the middle of a stream, which `read_exact` passes on as it
-- does its end.
pub mod Base
pub mod Clients
pub mod Router
pub mod Ws
pub mod Turbo
pub mod Codec
pub mod Lifecycle
mod Tests
