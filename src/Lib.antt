-- ===== src/Lib.antt =====
-- A verification library for the TypeScript SDK: its event streams, requests, responses, protocol
-- negotiation and Hub client. Functions that throw return a `Result`; asynchronous code takes what its
-- environment does (reads, aborts, a provider's answers, a consumer that leaves) as a value.
--
-- Parts:
--   Prelude   shared names, Boolean tests, list functions, integers
--   Js        the language's values: texts of UTF-16 units, UTF-8 lengths, percent encoding, JSON trees,
--             dates, `trim`
--   Core      src/core, src/http/strong-etag.ts and src/commands/idempotency.ts: errors (`Result`),
--             opaque values, capability sets, versions and compatibility windows
--   Protocol  src/protocol: the descriptor, `requireCapability`, `negotiateProtocolVersion`
--   Http      src/http: `RequestBuilder` (request-builder.ts), `RequestSnapshot`
--             (json-request-snapshot.ts), `FetchTransport` (fetch-transport.ts) over `HeaderValue`
--             (what the platform's `Headers` keeps of a value, as documented),
--             `BoundedBody` (`readBoundedText`, empty-body.ts), `JsonWalk` (`visitJson`, validate.ts),
--             `ProtocolJson` (`parseProtocolJson`, `numericMirror`) and `JsonIntegers`
--             (`isExactJsonInteger`) of bounded-json.ts,
--             `Response`, `ResponseMetadata` and `ResponseDecoder` (response-decoder.ts)
--   Events    src/events: `SseParser` (`IncrementalSseParser`), `SseStream` (`parseSseStream`),
--             `Subscription` (`subscribeToSse`), `ProtocolEvents` and `EventDecoder`
--             (protocol-subscription.ts)
--   Commands  src/commands: `Safety` (`assertCommandSafety`), `Advertised` (`validateAdvertisedCommand`
--             with its caches)
--   Client    src/client: `Pages` (`iteratePages` of operations.ts), `Options`, `Identity`, `ReadCalls`,
--             `Reads`, `Writes` and `Commands` (client.ts: the options, the checks of identity, the
--             methods that read, `#read`, `#write`, `#writeCommand`), `Session` (types.ts) and
--             `Session/Create` (session.ts)
--   Hub       src/hub: `Drives` (the query and the page of drives) and `Sessions` (generation, disposal,
--             logout and discovery as steps), `Failures` (the answers that are errors), `Credentials`,
--             `Claims` (`rotateDevice`), `Pairing` (`claimPairing`) and `Reads` (`#read` and what is
--             built on it) of client.ts, `Validate` (validate.ts)
--   Tests     runs of the theorems on concrete inputs
--
-- How they interact: a subscription asks the transport for a response, has it classified by the
-- decoder of problems, and runs the parser over its body; a read builds a request, sends it and
-- decodes the response with the bounded reader, the walk over numbers and a validator.
--
-- Fuel: the loops of the parser and of interpolation take at least a unit of the text in each round,
-- so the text's length is enough; the walk over JSON counts its rounds first. The rounds of a
-- subscription are as many as are observed, since the loop has no end of its own. The copy of a value
-- takes one unit for each object on the way down, so one more than there are objects is enough; the
-- year of a time value is looked for in as many years as it has days. The mirror of a JSON text takes
-- its length, and the walk over the integer fields the number of values in the tree.
--
-- A method of the client makes its arguments or throws; `#read` and its like then build the request,
-- send it over a `FetchTransport`, decode the response and check whose it is. A command is also checked
-- against the schemas that the descriptor advertises, before it is sent.
--
-- Parameters: the generated validators and event catalog, `JSON.parse` with `TextDecoder`, `URL`, the
-- text of a number, the compiler of JSON schemas, and
-- what `fetch`, the credential provider, the signal and the checkpoint store do.
--
-- Not modelled: timers, sockets and the cancellation of bodies, which no value shows; generated code;
-- the discoveries that several callers of the Hub client share, and the order of the changes to its
-- credentials: what a call finds there is a value.
pub mod Prelude
pub mod Js
pub mod Core
pub mod Events
pub mod Protocol
pub mod Client
pub mod Commands
pub mod Http
pub mod Hub
pub mod Tests
