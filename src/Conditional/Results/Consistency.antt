-- ===== src/Conditional/Results/Consistency.antt =====
-- conditional.go: a transaction result and a lookup beside the receipt and the request.
use talon_sdk_go.Base.{
  ℕ, ◌≡◌, ◌↔◌, refl, sym, ap, subst, ◌∙◌, true, not, ◌&&◌, Option, none, some, Bytes, ok,
  guarded_ok, bind_ok, ◌==◌, bytes_equal, bytes_equal→eq, Option-cases, Result-cases, inl, inr,
  arith,
}
use talon_sdk_go.Conditional.{Request}
use talon_sdk_go.Conditional.Receipts.{Receipt, Outcome, validate_receipt}
use talon_sdk_go.Conditional.Results.{
  violation, Optional, absent, null, value, Stage, Durability, quorum_fsync, WireQuorum,
  QuorumReceipt, agree, is_applied, matches_receipt, decode_quorum, optional_quorum,
  duplicate_result, TransactionResult, validated, nullable_sha, stage_of, durability_of, positive,
  present,
}

-- The quorum receipt of an applied transaction: its revision, its stage and durability, its hash.
abbrev pub IsAppliedQuorum : ℕ → Bytes → Option QuorumReceipt → Type 0
IsAppliedQuorum revision hash none = Unit
IsAppliedQuorum revision hash (some q) =
    (q.index ≡ revision)
    × (q.stage ≡ Stage.applied)
    × (q.durability ≡ quorum_fsync)
    × (q.result_sha256 ≡ some hash)

abbrev pub IsConsistent : Request → Receipt → Bytes → TransactionResult → Type 0
IsConsistent request receipt hash r =
    ((r.receipt ≡ receipt) × (r.revision ≡ receipt.revision) × (r.original ≡ receipt.outcome))
    × (validate_receipt receipt request.namespace request.conditions request.mutations ≡ ok tt)
    × (receipt.command_sha256 ≡ request.command_sha256)
    × (((r.applied ≡ true) ↔ (r.original ≡ Outcome.applied)) × (r.rejected ≡ not r.applied))
    × ((r.duplicate ≡ true) ↔ (r.kind ≡ duplicate_result))
    × IsAppliedQuorum receipt.revision hash r.quorum

match_tests :
    (q : QuorumReceipt) (revision : ℕ) (hash : Bytes)
    → matches_receipt (some (revision, hash)) q ≡ true
    → (q.index ≡ revision) × (is_applied q.stage ≡ true) × (q.result_sha256 ≡ some hash)
unfolding matches_receipt
match_tests q revision hash h = elim (Option-cases q.result_sha256) [
  | inl missing ↦ absurd (ground (arith, h, missing))
  | inr (sha, given) ↦ (
    ground (arith, h, given),
    ground (arith, h, given),
    given ∙ ap some (sym (bytes_equal→eq hash sha (ground (arith, h, given)))),
  )
]

applied_stage : (s : Stage) → is_applied s ≡ true → s ≡ Stage.applied
unfolding is_applied
applied_stage Stage.applied h = refl
applied_stage Stage.accepted h = cc
applied_stage Stage.committed h = cc

durable : (s : Stage) (d : Durability) → is_applied s ≡ true → agree s d ≡ true → d ≡ quorum_fsync
unfolding is_applied agree
durable s d h a = ground (arith, h, a)

pub ok_same {ℓ} : {A : Type ℓ} {x y : A} → ok x ≡ ok y → x ≡ y
ok_same e = cc

matched :
    (q : QuorumReceipt) (revision : ℕ) (hash : Bytes)
    → agree q.stage q.durability ≡ true
    → matches_receipt (some (revision, hash)) q ≡ true
    → IsAppliedQuorum revision hash (some q)
matched q revision hash a h =
    let (index, stage, sha) = match_tests q revision hash h in
    (index, applied_stage q.stage stage, durable q.stage q.durability stage a, sha)

decode_quorum-matched :
    (request : Request) (revision : ℕ) (hash : Bytes) (wire : WireQuorum) (q : QuorumReceipt)
    → decode_quorum request (some (revision, hash)) wire ≡ ok q
    → IsAppliedQuorum revision hash (some q)
unfolding decode_quorum
decode_quorum-matched request revision hash wire q h =
    let (_, h1) = guarded_ok _ violation _ h in
    let (index, _, h2) = bind_ok (positive wire.index) _ h1 in
    let (term, _, h3) = bind_ok (present wire.term) _ h2 in
    let (stage, _, h4) = bind_ok (stage_of wire.stage) _ h3 in
    let (durability, _, h5) = bind_ok (durability_of wire.durability) _ h4 in
    let (agreed, h6) = guarded_ok _ violation _ h5 in
    let (sha, _, h7) = bind_ok (nullable_sha wire.result_sha256) _ h6 in
    let (same, h8) = guarded_ok _ violation _ h7 in
    subst (λ r. IsAppliedQuorum revision hash (some r)) (ok_same h8)
      (matched _ revision hash agreed same)

pub optional_quorum-matched :
    (request : Request) (revision : ℕ) (hash : Bytes) (wire : Optional WireQuorum)
    (q : Option QuorumReceipt)
    → optional_quorum request (some (revision, hash)) wire ≡ ok q
    → IsAppliedQuorum revision hash q
unfolding optional_quorum
optional_quorum-matched request revision hash absent q h =
    subst (IsAppliedQuorum revision hash) (ok_same h) tt
optional_quorum-matched request revision hash null q h = cc
optional_quorum-matched request revision hash (value wire) q h =
    let (inner, made, e) = bind_ok (decode_quorum request (some (revision, hash)) wire) _ h in
    subst (IsAppliedQuorum revision hash) (ok_same e)
      (decode_quorum-matched request revision hash wire inner made)

pub validated_ok :
    (receipt : Receipt) (request : Request)
    → validated receipt request ≡ ok tt
    → validate_receipt receipt request.namespace request.conditions request.mutations ≡ ok tt
unfolding validated
validated_ok receipt request h =
    elim (Result-cases
      (validate_receipt receipt request.namespace request.conditions request.mutations)) [
        | inl (e, failed) ↦ absurd (ground (arith, h, failed))
        | inr (tt, passed) ↦ passed
      ]

pub identity_tests :
    (revision revision' : ℕ) (sha sha' : Bytes)
    → ((revision == revision') && bytes_equal sha sha') ≡ true
    → (revision ≡ revision') × (sha ≡ sha')
identity_tests revision revision' sha sha' h =
    (ground (arith, h), bytes_equal→eq sha sha' (ground (arith, h)))
