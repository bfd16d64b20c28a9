-- ===== src/Conditional/Results.antt =====
-- conditional.go: what is made of a transaction's answer and of a receipt lookup once their JSON is
-- read. `Optional` tells an absent field from a null one. The receipt stands beside the SHA-256 of its
-- canonical JSON text.
pub mod Consistency
pub mod Quorums
pub mod Lookups
use talon_sdk_go.Base.{
  ℕ, zero, suc, ◌≡◌, ◌≢◌, refl, sym, ap, ◌∙◌, Bool, true, false, not, ◌&&◌, ◌||◌, Option, none,
  some, List, [], ◌∷◌, Bytes, Result, ok, err, plain, new_error, guard, guarded_ok, bind_ok, Error,
  ErrorCode, ◌>>=◌, ◌>>◌, ltb, leb, ◌==◌, ==_iff, if◌then◌else◌, length, bytes_equal,
  bytes_equal→eq, codes, every, arith,
}
use talon_sdk_go.Conditional.{Request}
use talon_sdk_go.Conditional.Receipts.{Receipt, Outcome, is_none, validate_receipt}

abbrev violation : Error
violation = new_error ErrorCode.protocol_violation

pub data Optional {ℓ} (A : Type ℓ) : Type ℓ where
  absent null : Optional A
  value : A → Optional A

-- QuorumReceiptStage and QuorumDurability
pub data Stage : Type 0 where
  accepted committed applied : Stage

pub data Durability : Type 0 where
  no_durability local_fsync quorum_fsync : Durability

pub record WireQuorum : Type 0 where
  pub version : ℕ
  pub request_id : Bytes
  pub index : Option ℕ
  pub term : Option ℕ
  pub stage : Bytes
  pub durability : Bytes
  pub command_sha256 : Bytes
  pub result_sha256 : Optional Bytes

pub record QuorumReceipt : Type 0 where
  pub index : ℕ
  pub term : ℕ
  pub stage : Stage
  pub durability : Durability
  pub result_sha256 : Option Bytes

-- shaPattern
unfoldable pub is_sha : Bytes → Bool
is_sha text =
    (length text == 64) && every (λ c. (leb 48 c && leb c 57) || (leb 97 c && leb c 102)) text

-- decodeNullableSHA256
unfoldable pub nullable_sha : Optional Bytes → Result (Option Bytes)
nullable_sha absent = err violation
nullable_sha null = ok none
nullable_sha (value text) = if is_sha text then ok (some text) else err violation

unfoldable pub stage_of : Bytes → Result Stage
stage_of name =
    if bytes_equal name (codes "accepted")
    then ok accepted
    else if bytes_equal name (codes "committed")
    then ok committed
    else if bytes_equal name (codes "applied")
    then ok applied
    else err violation

unfoldable pub durability_of : Bytes → Result Durability
durability_of name =
    if bytes_equal name (codes "none")
    then ok no_durability
    else if bytes_equal name (codes "local_fsync")
    then ok local_fsync
    else if bytes_equal name (codes "quorum_fsync")
    then ok quorum_fsync
    else err violation

-- The test that the two belong together.
unfoldable pub agree : Stage → Durability → Bool
agree accepted local_fsync = true
agree accepted _ = false
agree _ quorum_fsync = true
agree _ _ = false

unfoldable pub is_applied : Stage → Bool
is_applied applied = true
is_applied _ = false

-- The comparison with the receipt of the transaction: its revision, and its hash.
unfoldable pub matches_receipt : Option (ℕ × Bytes) → QuorumReceipt → Bool
matches_receipt none q = true
matches_receipt (some (revision, hash)) q =
    (q.index == revision)
    && is_applied q.stage
    && elim q.result_sha256 [ none ↦ false | some sha ↦ bytes_equal hash sha ]

-- decodeOptionalQuorumReceipt; `receipt` is the receipt's revision and hash where there is one.
unfoldable pub positive : Option ℕ → Result ℕ
positive none = err violation
positive (some zero) = err violation
positive (some (suc n)) = ok (suc n)

unfoldable pub present : Option ℕ → Result ℕ
present none = err violation
present (some n) = ok n

unfoldable pub decode_quorum : Request → Option (ℕ × Bytes) → WireQuorum → Result QuorumReceipt
decode_quorum request receipt wire = do
  guard
      ((wire.version == 1)
        && bytes_equal wire.request_id request.request_id
        && bytes_equal wire.command_sha256 request.command_sha256
        && is_sha wire.command_sha256)
      violation
  index ← positive wire.index
  term ← present wire.term
  stage ← stage_of wire.stage
  durability ← durability_of wire.durability
  guard (agree stage durability) violation
  sha ← nullable_sha wire.result_sha256
  let q : QuorumReceipt = record {
    index = index;
    term = term;
    stage = stage;
    durability = durability;
    result_sha256 = sha;
  }
  guard (matches_receipt receipt q) violation
  ok q

unfoldable pub optional_quorum :
    Request → Option (ℕ × Bytes) → Optional WireQuorum → Result (Option QuorumReceipt)
optional_quorum request receipt absent = ok none
optional_quorum request receipt null = err violation
optional_quorum request receipt (value wire) = do
  q ← decode_quorum request receipt wire
  ok (some q)

-- ConditionalTransactionResultKind
pub data ResultKind : Type 0 where
  applied_result duplicate_result conflict_result : ResultKind

unfoldable pub result_kind_of : Bytes → Result ResultKind
result_kind_of name =
    if bytes_equal name (codes "applied")
    then ok applied_result
    else if bytes_equal name (codes "duplicate")
    then ok duplicate_result
    else if bytes_equal name (codes "conflict")
    then ok conflict_result
    else err violation

unfoldable pub outcome_of : Bytes → Result Outcome
outcome_of name =
    if bytes_equal name (codes "applied")
    then ok Outcome.applied
    else if bytes_equal name (codes "conflict")
    then ok Outcome.conflict
    else err violation

unfoldable pub same_outcome : Outcome → Outcome → Bool
same_outcome Outcome.applied Outcome.applied = true
same_outcome Outcome.conflict Outcome.conflict = true
same_outcome _ _ = false

unfoldable pub is_duplicate : ResultKind → Bool
is_duplicate duplicate_result = true
is_duplicate _ = false

-- `string(resultKind) == string(original)`
unfoldable pub kind_is_outcome : ResultKind → Outcome → Bool
kind_is_outcome applied_result Outcome.applied = true
kind_is_outcome conflict_result Outcome.conflict = true
kind_is_outcome _ _ = false

unfoldable pub equal_bool : Bool → Bool → Bool
equal_bool true b = b
equal_bool false b = not b

-- wireConditionalResult
pub record WireResult : Type 0 where
  pub result : Bytes
  pub original_result : Bytes
  pub applied : Option Bool
  pub duplicate : Option Bool
  pub revision : Option ℕ
  pub quorum_receipt : Optional WireQuorum

pub record TransactionResult : Type 0 where
  pub kind : ResultKind
  pub original : Outcome
  pub applied : Bool
  pub rejected : Bool
  pub duplicate : Bool
  pub revision : ℕ
  pub receipt : Receipt
  pub quorum : Option QuorumReceipt

unfoldable pub required : Option Bool → Result Bool
required none = err violation
required (some b) = ok b

-- The errors of validateReceiptAgainstRequest, as protocolError wraps them.
unfoldable pub validated : Receipt → Request → Result (Unit {0})
validated receipt request =
    elim (validate_receipt receipt request.namespace request.conditions request.mutations) [
      | ok _ ↦ ok tt
      | err _ ↦ err violation
    ]

-- decodeConditionalTransactionResult behind decodeConditionalReceipt, which gave the receipt.
unfoldable pub finish_result : WireResult → Receipt → Bytes → Request → Result TransactionResult
finish_result wire receipt hash request = do
  done ← required wire.applied
  repeated ← required wire.duplicate
  revision ← present wire.revision
  guard
      ((revision == receipt.revision) && bytes_equal receipt.command_sha256 request.command_sha256)
      violation
  kind ← result_kind_of wire.result
  original ← outcome_of wire.original_result
  guard
      (same_outcome original receipt.outcome
        && equal_bool done (same_outcome original Outcome.applied)
        && equal_bool repeated (is_duplicate kind)
        && (repeated || kind_is_outcome kind original))
      violation
  _ ← validated receipt request
  quorum ← optional_quorum request (some (receipt.revision, hash)) wire.quorum_receipt
  ok (record {
    kind = kind;
    original = original;
    applied = done;
    rejected = not done;
    duplicate = repeated;
    revision = revision;
    receipt = receipt;
    quorum = quorum;
  })

-- wireConditionalLookup; the receipt is what decodeConditionalReceipt makes of the field, with its hash.
pub record WireLookup : Type 0 where
  pub result : Bytes
  pub request_id : Bytes
  pub revision : Option ℕ
  pub receipt : Optional (Result (Receipt × Bytes))
  pub has_stream_receipt : Bool
  pub quorum_receipt : Optional WireQuorum

-- ConditionalReceiptLookup
pub data Lookup : Type 0 where
  indeterminate : QuorumReceipt → Lookup
  found : Receipt → Option QuorumReceipt → Lookup

unfoldable pub is_absent {ℓ} : {A : Type ℓ} → Optional A → Bool
is_absent absent = true
is_absent null = false
is_absent (value _) = false

unfoldable pub pending : Option QuorumReceipt → Result Lookup
pending none = err violation
pending (some q) =
    if is_none q.result_sha256 && not (is_applied q.stage)
    then ok (indeterminate q)
    else err violation

unfoldable pub lookup_receipt : Optional (Result (Receipt × Bytes)) → Result (Receipt × Bytes)
lookup_receipt absent = err violation
lookup_receipt null = err violation
lookup_receipt (value decoded) = decoded

unfoldable pub lookup_indeterminate : WireLookup → Request → Result Lookup
lookup_indeterminate wire request = do
  guard (is_none wire.revision && is_absent wire.receipt) violation
  quorum ← optional_quorum request none wire.quorum_receipt
  pending quorum

unfoldable pub lookup_found : WireLookup → Request → Result Lookup
lookup_found wire request = do
  revision ← present wire.revision
  (receipt, hash) ← lookup_receipt wire.receipt
  guard
      ((revision == receipt.revision) && bytes_equal receipt.command_sha256 request.command_sha256)
      violation
  _ ← validated receipt request
  quorum ← optional_quorum request (some (receipt.revision, hash)) wire.quorum_receipt
  ok (found receipt quorum)

-- decodeConditionalReceiptLookup behind the JSON
unfoldable pub finish_lookup : WireLookup → Request → Result Lookup
finish_lookup wire request =
    guard (bytes_equal wire.request_id request.request_id && not wire.has_stream_receipt) violation
    >> (if bytes_equal wire.result (codes "indeterminate")
        then lookup_indeterminate wire request
        else if bytes_equal wire.result (codes "receipt")
        then lookup_found wire request
        else err violation)
