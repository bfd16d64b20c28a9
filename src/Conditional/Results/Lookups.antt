-- ===== src/Conditional/Results/Lookups.antt =====
-- conditional.go: a receipt lookup beside the request.
use talon_sdk_go.Base.{
  ◌≡◌, ◌≢◌, refl, sym, ap, subst, ◌∙◌, true, false, not, ◌&&◌, Option, none, some, Bytes, Result,
  ok, err, guarded_ok, bind_ok, bytes_equal, bytes_equal→eq, if◌then◌else◌, codes, Bool-cases,
  Option-cases, both_true, inl, inr, arith,
}
use talon_sdk_go.Conditional.{Request}
use talon_sdk_go.Conditional.Receipts.{Receipt, validate_receipt, is_none}
use talon_sdk_go.Conditional.Results.{
  violation, Optional, absent, null, value, Stage, QuorumReceipt, is_applied, optional_quorum,
  validated, WireLookup, Lookup, indeterminate, found, pending, is_absent, lookup_receipt,
  lookup_indeterminate, lookup_found, finish_lookup, present,
}
use talon_sdk_go.Conditional.Results.Consistency.{
  IsAppliedQuorum, ok_same, optional_quorum-matched, validated_ok, identity_tests,
}
use talon_sdk_go.Conditional.Results.Quorums.{
  IsOptionalQuorum, present-some, optional_quorum-IsOptionalQuorum,
}

-- What a lookup found out: a receipt that answers the request, or a quorum receipt not yet applied.
unfoldable pub IsFinding : WireLookup → Request → Lookup → Type 0
IsFinding wire request (indeterminate q) =
    (wire.result ≡ codes "indeterminate")
    × (wire.revision ≡ none)
    × (wire.receipt ≡ absent)
    × IsOptionalQuorum request wire.quorum_receipt (some q)
    × (q.result_sha256 ≡ none)
    × (q.stage ≢ Stage.applied)
IsFinding wire request (found receipt quorum) =
    (wire.result ≡ codes "receipt")
    × (wire.revision ≡ some receipt.revision)
    × (hash : Bytes) × (wire.receipt ≡ value (ok (receipt, hash)))
    × (validate_receipt receipt request.namespace request.conditions request.mutations ≡ ok tt)
    × (receipt.command_sha256 ≡ request.command_sha256)
    × IsOptionalQuorum request wire.quorum_receipt quorum
    × IsAppliedQuorum receipt.revision hash quorum

abbrev pub IsLookup : WireLookup → Request → Lookup → Type 0
IsLookup wire request l =
    (wire.request_id ≡ request.request_id)
    × (wire.has_stream_receipt ≡ false)
    × IsFinding wire request l

not_applied : (s : Stage) → not (is_applied s) ≡ true → s ≢ Stage.applied
unfolding is_applied
not_applied s h e = ground (arith, h, e)

pending_tests :
    (q : Option QuorumReceipt) (l : Lookup)
    → pending q ≡ ok l
    → (p : QuorumReceipt) × (q ≡ some p)
      × (l ≡ indeterminate p)
      × (p.result_sha256 ≡ none)
      × (p.stage ≢ Stage.applied)
unfolding pending is_none
pending_tests none l h = cc
pending_tests (some q) l h = elim (Option-cases q.result_sha256) [
  | inl missing ↦
      let waiting : not (is_applied q.stage) ≡ true = ground (arith, h, missing) in
      let same : indeterminate q ≡ l = ground (arith, h, missing) in
      (q, refl, sym same, missing, not_applied q.stage waiting)
  | inr (sha, given) ↦ absurd (ground (arith, h, given))
]

absent_of : {A : Type 0} (field : Optional A) → is_absent field ≡ true → field ≡ absent
unfolding is_absent
absent_of absent h = refl
absent_of null h = cc
absent_of (value a) h = cc

none_of : {A : Type 0} (field : Option A) → is_none field ≡ true → field ≡ none
unfolding is_none
none_of none h = refl
none_of (some a) h = cc

given_receipt :
    (field : Optional (Result (Receipt × Bytes))) (pair : Receipt × Bytes)
    → lookup_receipt field ≡ ok pair
    → field ≡ value (ok pair)
unfolding lookup_receipt
given_receipt absent pair h = cc
given_receipt null pair h = cc
given_receipt (value decoded) pair h = ap value h

lookup_found-IsFinding :
    (wire : WireLookup) (request : Request) (l : Lookup)
    → wire.result ≡ codes "receipt"
    → lookup_found wire request ≡ ok l
    → IsFinding wire request l
unfolding lookup_found IsFinding
lookup_found-IsFinding wire request l named h =
    let (revision, at, h1) = bind_ok (present wire.revision) _ h in
    let ((receipt, hash), given, h2) = bind_ok (lookup_receipt wire.receipt) _ h1 in
    let (identified, h3) = guarded_ok _ violation _ h2 in
    let (checked, valid, h4) = bind_ok (validated receipt request) _ h3 in
    let (quorum, made, h5) =
      bind_ok (optional_quorum request (some (receipt.revision, hash)) wire.quorum_receipt) _ h4 in
    let (revisions, commands) =
      identity_tests revision receipt.revision receipt.command_sha256 request.command_sha256
        identified in
    let receipts = some (receipt.revision, hash) in
    subst (IsFinding wire request) (ok_same h5) (
      named,
      present-some wire.revision revision at ∙ ap some revisions,
      hash,
      given_receipt wire.receipt (receipt, hash) given,
      validated_ok receipt request valid,
      commands,
      optional_quorum-IsOptionalQuorum request receipts wire.quorum_receipt quorum made,
      optional_quorum-matched request receipt.revision hash wire.quorum_receipt quorum made,
    )

lookup_indeterminate-IsFinding :
    (wire : WireLookup) (request : Request) (l : Lookup)
    → wire.result ≡ codes "indeterminate"
    → lookup_indeterminate wire request ≡ ok l
    → IsFinding wire request l
unfolding lookup_indeterminate IsFinding
lookup_indeterminate-IsFinding wire request l named h =
    let (bare, h1) = guarded_ok (is_none wire.revision && is_absent wire.receipt) violation _ h in
    let (no_revision, no_receipt) =
      both_true (is_none wire.revision) (is_absent wire.receipt) bare in
    let (q, made, h2) = bind_ok (optional_quorum request none wire.quorum_receipt) _ h1 in
    let (p, known, same, unnamed, waiting) = pending_tests q l h2 in
    let quorum = optional_quorum-IsOptionalQuorum request none wire.quorum_receipt q made in
    subst (IsFinding wire request) (sym same) (
      named,
      none_of wire.revision no_revision,
      absent_of wire.receipt no_receipt,
      subst (IsOptionalQuorum request wire.quorum_receipt) known quorum,
      unnamed,
      waiting,
    )

-- A receipt lookup that is accepted repeats the id of the request and has no stream receipt. It either
-- found a receipt, the decoded one of the answer, at the revision of the answer, that passed the check
-- against the request and carries its hash, or it is indeterminate and has no revision and no receipt. A
-- quorum receipt beside a found one is applied, for that revision and the hash of that receipt, and
-- that of an indeterminate lookup, which has one, is not applied and names no result. A quorum receipt has
-- the id and the command hash of the request, and the index, term, stage, durability and result hash of
-- its fields, with the durability that belongs to the stage.
pub finish_lookup-IsLookup :
    (wire : WireLookup) (request : Request) (l : Lookup)
    → finish_lookup wire request ≡ ok l
    → IsLookup wire request l
unfolding finish_lookup
finish_lookup-IsLookup wire request l h =
    let (known, h1) =
      guarded_ok (bytes_equal wire.request_id request.request_id && not wire.has_stream_receipt)
        violation
        (if bytes_equal wire.result (codes "indeterminate")
          then lookup_indeterminate wire request
          else if bytes_equal wire.result (codes "receipt")
          then lookup_found wire request
          else err violation)
        h in
    let (id, streamless) =
      both_true (bytes_equal wire.request_id request.request_id) (not wire.has_stream_receipt)
        known in
    (
      bytes_equal→eq wire.request_id request.request_id id,
      ground (arith, streamless),
      elim (Bool-cases (bytes_equal wire.result (codes "indeterminate"))) [
        | inl waiting ↦
            lookup_indeterminate-IsFinding wire request l
              (bytes_equal→eq wire.result (codes "indeterminate") waiting)
              (ground (arith, h1, waiting))
        | inr other ↦ elim (Bool-cases (bytes_equal wire.result (codes "receipt"))) [
          | inl finding ↦
              lookup_found-IsFinding wire request l
                (bytes_equal→eq wire.result (codes "receipt") finding)
                (ground (arith, h1, other, finding))
          | inr neither ↦ absurd (ground (arith, h1, other, neither))
        ]
      ],
    )
