-- ===== src/Lib.antt =====
-- talon-sdk-go: the Go SDK of the Talon database, as definitions that run, and theorems on them.
--
-- The SDK has two ways to the database. The embedded package (the root of the repository) loads the
-- native core into the process and talks to it in bytes: talon_query.go writes parameters and reads
-- rows, talon_kv_read.go writes key lists and reads values, and talon.go refuses what the core does not
-- attest. The server package (server, over internal/serverprotocol) talks HTTP and JSON; its conditional
-- transactions are requests with a command hash, answered by receipts that the SDK checks. Both report
-- errors in one envelope, errors.go, and share exact decimals.
--
-- Base: shared tests on numbers, lists, integers, machine words, text and UTF-8; Base.Errors is the
--   error envelope of errors.go and internal/serverprotocol/errors.go, with the result type.
-- Decimal: `Decimal`, `NewDecimal`, `ParseDecimal` and `Text` of internal/serverprotocol/sql.go, and
--   the printers `formatDecimal` (talon_params.go) and `decimalText` (goframe/native_sql.go).
--   Decimal.Digits spells numbers, Decimal.Scanning follows the scanner.
-- Wire: the values of talon_query.go, `encodeParameters` and `appendWireValue`; Wire.Scalar tests
--   numbers and holds the 128-bit coefficients, Wire.Decode is `decodeWireValue` and `decodeRows`,
--   Wire.Stored has the ranges of Go's types and the bound of the decoder on a cell.
-- Native: the machine codes of native errors (`newNativeError` of both packages) and
--   `RequireCapability` of talon.go over the records of native_manifest.go.
-- KvRead: talon_kv_read.go, requests, replies and the five reads.
-- Conditional: internal/serverprotocol/conditional.go, the requests and the bytes of their hash;
--   Conditional.Order compares values, Conditional.Arithmetic adds counters, Conditional.Receipts is
--   `validateReceiptAgainstRequest`, Conditional.Results is `decodeConditionalTransactionResult`,
--   `decodeConditionalReceiptLookup` and `decodeOptionalQuorumReceipt` behind their JSON.
-- Revision: the Merkle mountain range of revision_stream.go: the digests, `peak_layout`
--   (expectedRevisionStreamPeakLayout), `append_leaf` (appendRevisionStreamMerkleLeaf) and
--   `verify_inclusion` (verifyRevisionStreamInclusion). Revision.Range describes the canonical peaks by
--   perfect trees, apart from the code, and Revision.Honest the proofs that such trees give.
--   Revision.Collisions pairs the inputs of two digests. Revision.Query holds the data of queries; its
--   children are the check of a page (Checks, Verify: verifyRevisionStreamQueryPage), and the requests,
--   the acceptance of a page and its continuation (Heads, Pages: newRevisionStreamQueryRequest and
--   decodeRevisionStreamQueryPage behind the reading of its JSON).
-- Remote: internal/serverprotocol/client.go, the envelope of an answer (decodeServerResponse) and its
--   errors; Remote.Calls is `do_call` (ServerClient.do) and the methods KvSet, KvGet, KvDel, KvExists,
--   KvSetNX and ExecuteConditionalTransaction. A call returns the requests that it sent beside its
--   result.
-- Driver: goframe/native_sql.go. Driver holds the connection and its transactions (nativeConn,
--   nativeTx), with the calls of Core as its history; Driver.Statements is ExecContext with
--   normalizeMutationSQL and mutationKind, Driver.Grammar describes the statements by their texts,
--   Driver.Sessions the operations as a step relation, Driver.Rows the rows of a query (nativeRows).
--
-- Conventions. Bytes and characters are numbers; a Go string is its bytes. An int64 is an integer
-- with its range as a hypothesis, and where the code wraps, the model writes the wrap. A float is its
-- bit pattern. A nil slice is `none` where the code tells it from an empty one. A decoder takes the
-- input from its position on and returns the rest. Errors are values; text and cause of an error are
-- left out. The recursions follow their lists; the digits of a number are made on fuel that is the
-- number plus one, which is enough since each step divides by ten.
--
-- Parameters: the strict JSON test, SHA-256 with its hexadecimal text, what the native library
-- answers, for the server client the HTTP client, the JSON decoder and encoder and the media type, and
-- for the driver the functions of Go's strings and what Core answers. `drain` calls Next on fuel, one
-- more than there are rows.
--
-- Not modelled: the library and its loading, the making of a server client (URL, token, TLS), JSON,
-- point, snapshot and prefix reads, the append request and the receipts of revision streams, SQL
-- sessions of the server, the values of the driver beyond its decimals, and the engine wrappers
-- (talon_ai.go, talon_fts.go, talon_geo.go, talon_graph.go, talon_mq.go, talon_ts.go).
pub mod Base
pub mod Decimal
pub mod Wire
pub mod Native
pub mod KvRead
pub mod Conditional
pub mod Revision
pub mod Remote
pub mod Driver
