-- ===== src/Lib.antt =====
-- The feature flag SDK for Go: how it evaluates flags for targets, keeps flags and segments, follows the
-- event stream and counts evaluations.
--
-- An application asks the client for a variation of a flag for a target. The evaluator fetches the flag and
-- its segments through the interface Query, which the repository implements, and reports each evaluation to a
-- callback, which queues it for analytics. The repository is filled by polling and by the event stream.
-- Beside the evaluator stands an older evaluation, which the client does not call.
--
-- Which file models what:
--   Common, Common/*      tests on numbers, lists, 64-bit integers, the ways in which a Go call ends (Run: a
--                         value, a panic, or no fuel), values with errors (Result), Go maps
--   Go, Go/*              parameters for the libraries that the SDK calls (floats, JSON, regular expressions,
--                         the murmur3 hash, Unicode case), and strings and strconv as the SDK uses them
--   Rest, Errors, Target  rest/types.gen.go, the sentinel errors, evaluation/target.go
--   Builder               dto/target_builder.go, over a heap of attribute maps, which targets share
--   Bucket                evaluation/util.go and evaluation/strategy.go: percentage rollouts
--   Evaluator, and under it Clause, Segment, Rules, Flag, Prerequisite, Variation
--                         evaluation/evaluator.go, function by function: evaluateClause and evaluateClauses;
--                         isTargetIncludedOrExcludedInSegment; evaluateRules and evaluateVariationMap;
--                         evaluateFlag; checkPreRequisite; evaluate and BoolVariation to JSONVariation
--   Types, and under it Boolean, Integer, Number, Text, Slice
--                         types/value.go, types/bool.go, types/int.go, types/number.go, types/string.go and
--                         types/slice.go: a record of operators per type of attribute value
--   Feature, and under it Operator, SegmentRules, Rules, Flag, Prereqs, Variations
--                         evaluation/feature.go, evaluation/segment.go and GetOperator of
--                         evaluation/target.go: the older evaluation. Rollouts, Clauses, Membership and
--                         Agreement set it against the evaluator, on data that both can read
--   Lru, Persistence      cache/lru.go and cache/persist.go, which the client does not use; Key of dto/key.go
--   Repository            pkg/repository/repository.go, with the interfaces of pkg/repository/cache.go and
--                         storage/storage.go; the methods for flags and segments are one function over a Kind;
--                         AsQuery is its side of the evaluator's interface Query; Reach, its methods as steps;
--                         Race, two goroutines in SetFlag
--   FileStore             storage/file.go, which fills the storage interface
--   Analytics             analyticsservice/analytics.go and the data of metricsclient/types.gen.go; Turns, the
--                         listener and the timer as turns; Tally, the summary as a count on a quotient
--   Stream                stream/sse.go, stream/message.go, stream/stream.go, dto/key.go
--   Http, and under it Requests, Parse, Calls, Metrics
--                         rest/services.gen.go and metricsclient/services.gen.go: the client with its options
--                         and editors, the request builders, the parsers of answers, the methods
--   Client, and under it Authentication, Polling, Evaluation, Closing, Network
--                         client/client.go, client/config.go and client/options.go: NewCfClient, authenticate,
--                         pullCronJob with retrieve and streamConnect, IsInitialized, the variation methods
--                         with PostEvaluateProcessor, Close, the clients that authenticate makes;
--                         Network.Served sets the generated client under the stream
--   Wrapper               test_wrapper/ffgosdk/ff_go_sdk.go and test_wrapper/handlers/handlers.go, with the
--                         bodies of test_wrapper/restapi: the variation methods over HTTP
--   Samples, Examples     inputs, tests, and the theorems at concrete inputs
--
-- Conventions. A pointer is an Option and a nil pointer that is read is a panic. An int and an int64 are a
-- ℤ whose sums wrap at 64 bits where the code adds, except that the counts of the analytics are natural
-- numbers without a bound. A method that changes its receiver returns the new
-- state. Locks are left out: each method of the repository and of the file store is one step, and so is
-- each turn of the analytics. Close, SetFlag and SetSegment are also modelled by their atomic actions. A
-- run of pullCronJob is a list of turns: what its select sees, and the end of a stream between two of them.
--
-- Fuel. Segments may name segments and flags may need flags. The model recurses on fuel there, one unit for
-- each level: `depth` for segments, `fuel` for prerequisites. A rank of the segments and of the flags that
-- falls along the references (IsRanked, IsSound) says how much is enough; the program itself has no bound.
-- The segments of the older evaluation cannot name segments, and only its prerequisites take fuel.
--
-- Not modelled: the logger, the timers, contexts, the OpenAPI documents that the generated files embed, and
-- the start of the test wrapper. What an HTTP exchange gives is a parameter of the stream and of the
-- polling (an error, no value, or a value); Http says when it is a value. URLs, HTTP and JSON themselves
-- are parameters (Net, Decoders). The cache of golang-lru is a parameter with laws (CacheLaws and LruLaws:
-- a write shows under its key, and may evict others; RoomLaws: it evicts nothing while there is room), and
-- so is the JSON codec of the file store (IsGeneric: what it decodes is of no type of the SDK). A range over
-- a Go map takes the order of the list. The file store is a storage of the repository while its map is not
-- nil (LiveStore).
pub mod Common
pub mod Go
pub mod Target
pub mod Rest
pub mod Errors
pub mod Builder
pub mod Bucket
pub mod Evaluator
pub mod Types
pub mod Feature
pub mod Lru
pub mod Persistence
pub mod Repository
pub mod FileStore
pub mod Analytics
pub mod Stream
pub mod Http
pub mod Client
pub mod Wrapper
pub mod Samples
pub mod Examples
