-- ===== src/Lib.antt =====
-- Tooti: verification library of the network's Go code.
--
-- Nodes announce themselves and their health; a gateway keeps a registry of them, prices chat
-- requests, takes payment and forwards the requests. The library follows the packages of the source.
--
-- Wire: the messages of pkg/apiv1/messages.go, with a nil pointer as `none`.
-- Registry: pkg/registry/registry.go. A Go map is an association list whose keys are distinct; each
-- operation takes the clock's reading, and runs as one step, since the source holds its mutex
-- throughout. Registry/Invariant states what every registry satisfies and the histories of calls,
-- Registry/Staleness is about eviction, Registry/Listing about the two listings.
-- X402: the payment messages of pkg/x402spike/eip712.go.
-- Gateway/Pricing: the token estimate and the quote of pkg/gateway/x402_paywall.go. int64 arithmetic
-- wraps as Go's does. Gateway/Pricing/Amount has the facts about amounts.
-- Gateway/Proxy: the settings of the proxy and the control store that it calls, as a record of
-- operations. Gateway/Records has the records that both sides exchange, Gateway/Answers what a handler
-- writes. Gateway/Auth: API keys and the control token. Gateway/Sessions: what is reserved before a
-- prepaid chat request and charged after it; Gateway/Sessions/Billing joins it with the store.
-- Dataplane/Tables: the tables of db/migrations and the SQL statements of
-- pkg/dataplane/postgres_store.go on them, as functions of the tables. Dataplane/Prepaid: the
-- transactions of the prepaid flow, each as a sequence of statements of which any may be refused;
-- `fails` says which, by the message that the source wraps the error in. Dataplane/Prepaid/Faults is
-- about refused statements, Moves, Settling and Crediting about what each call does to the books, Books
-- and History about sequences of calls, Once about repeated calls.
-- Dataplane/Faults has what all calls under refused statements share. Dataplane/Keys: API keys;
-- Keys/Lifecycle is about whom a key lets in before and after a call, Keys/Holders about who has which
-- key, Keys/Exchange about a key that replaces another. Dataplane/Providers: providers and their wallets,
-- with Providers/Wallets and Providers/Current on the active ones. Dataplane/Usage: telemetry batches and
-- usage events, with Usage/Recording on inserts and Usage/Query on listings. Dataplane/Store makes all
-- of them the gateway's control store.
-- Gateway/Paywall: the x402 check of pkg/gateway/x402_paywall.go; Paywall/Admitted is about who passes.
-- Gateway/Control: the handlers of pkg/gateway/control_api.go, with those of API keys and deposits in
-- Control/Keys, of telemetry batches in Control/Telemetry and of top-ups in Control/Topup; Control/Guarded
-- is about the control token, Control/Rotation about the exchange of keys, Control/Telemetry/Retries about
-- batches that are sent again. A handler is a function from the store's state to the new state and the
-- answer; the body it gets is what the JSON decoder gives.
-- Gateway/Ranking: the order in which nodes are tried; Ranking/Orders shows that its comparisons are
-- strict orders, Ranking/Sorting what the sorted lists are. Gateway/Routing: the loop over remote nodes.
-- Gateway/Chat: `handleChatCompletions` around both, with the payment, the prepaid session and the usage
-- event; Chat/Costs joins it with the store. Gateway/Streaming: `handleChatCompletionsStream`, which
-- Gateway/Chat takes as a parameter, with the relay of chunks in Streaming/Relay; Streaming/Relaying is
-- about what the client sees of a stream. Gateway/Messages has what both answer. A stream is the list of
-- what its decoder gives.
-- Gateway/Models: the handler `handleModels`, with Models/Listed on what it lists.
-- Gateway/Cors: pkg/gateway/cors.go. Config: pkg/config/config.go, with Config/Validation on what a loaded
-- configuration satisfies. Node/Payment: the quotes and debts of pkg/node/x402_paywall.go.
--
-- Bounds: every loop is a recursion on its list, so no fuel is used. An int and an int64 have 64 bits.
-- Amounts in USDC are counted in millionths, in which reservations and charges are whole. An amount that
-- a client names for a credit or a top-up is any float64, given by what the driver and the columns make
-- of it and of its sums (`Amount`), which round apart. A finite float64 that is only copied or compared is
-- counted in units of 2 ^ -1074.
--
-- Not modelled: libp2p, PostgreSQL, HTTP, JSON, YAML, base64 and the cryptography of signatures, which
-- are libraries; where the code depends on what they return, that is a parameter.
-- Rows that differ in their time alone are listed in the order they are stored in. The log's fields,
-- discovery, the node's inference service, the client that pays for itself, the Ollama client and the
-- command line are not modelled either.
pub mod Base
pub mod Config
pub mod Dataplane
pub mod Gateway
pub mod Node
pub mod Registry
pub mod Wire
pub mod X402
