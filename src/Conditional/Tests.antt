-- ===== src/Conditional/Tests.antt =====
-- Runs of the conditional protocol at fixed inputs, and the theorems at inputs that meet their
-- hypotheses. The hash is the identity here.
use talon_sdk_go.Base.{
  ◌≡◌, ◌≢◌, ◌⊎◌, ◌↔◌, refl, true, false, none, some, List, [], ◌∷◌, ◌++◌, Bytes, codes, ok, arith,
  length, every, ◌^◌, ◌-◌, bytes_equal,
}
use talon_sdk_go.Base.Int.{pos, ◌+ℤ◌}
use talon_sdk_go.Base.Words.{IsSigned, put_le, to_unsigned, from_unsigned}
use talon_sdk_go.Conditional.{
  Request, Condition, Mutation, CompareOperator, put, increment, build_request, is_namespace,
  is_request_id, is_namespace_byte, check_conditions, check_condition, check_mutations,
  check_mutation, valid_operator, valid_mutation, value_size, byte_array_json_size, items_size,
  digits_size, contains_key, mutation_key, command_sha, command_bytes, conditions_bytes,
  condition_bytes, mutations_bytes, mutation_bytes, field_bytes, expected_bytes, operator_byte,
  keyspace_of, marshal_bytes,
}
use talon_sdk_go.Conditional.Order.{value_matches, compare_nullable, Holds, value_matches-iff-Holds}
use talon_sdk_go.Conditional.Arithmetic.{add_int64, add_int64-exact}
use talon_sdk_go.Conditional.Sizes.{length-marshal_bytes}
use talon_sdk_go.Conditional.Build.{
  IsValidRequest, build_request-iff-IsValidRequest, new_request-same-command,
}
use talon_sdk_go.Conditional.Receipts.{Receipt, Outcome, validate_receipt}
use talon_sdk_go.Conditional.Results.{
  WireResult, TransactionResult, applied_result, absent, present, validated, optional_quorum,
  WireLookup, value, found, finish_lookup, lookup_found, lookup_receipt,
}
use talon_sdk_go.Conditional.Results.Lookups.{IsLookup, finish_lookup-IsLookup}
use talon_sdk_go.Conditional.Evidence.{
  All2, IsConditionEvidence, IsMutationEvidence, validate_receipt-evidence,
}

abbrev identity : Bytes → Bytes
identity bytes = bytes

abbrev name : Bytes
name = codes "n"

-- When "k" is absent, add 5 to the counter "c" and put an empty value under "k".
abbrev conditions : List Condition
conditions = record { key = codes "k"; expected = none; operator = CompareOperator.eq } ∷ []

abbrev mutations : List Mutation
mutations = increment (codes "c") (pos 5) ∷ put (codes "k") [] ∷ []

abbrev command : Bytes
command =
    codes "TLNCTX2"
    ++ (2 ∷ 0 ∷ 1 ∷ 0 ∷ 0 ∷ 0 ∷ 22 ∷ 0 ∷ 0 ∷ 0 ∷ [])
    ++ codes "__user_conditional__.n"
    ++ (1 ∷ 0 ∷ 0 ∷ 0 ∷ 107 ∷ 0 ∷ 0 ∷ 2 ∷ 0 ∷ 0 ∷ 0 ∷ 2 ∷ 22 ∷ 0 ∷ 0 ∷ 0 ∷ [])
    ++ codes "__user_conditional__.n"
    ++ (1 ∷ 0 ∷ 0 ∷ 0 ∷ 99 ∷ 5 ∷ 0 ∷ 0 ∷ 0 ∷ 0 ∷ 0 ∷ 0 ∷ 0 ∷ 0 ∷ 22 ∷ 0 ∷ 0 ∷ 0 ∷ [])
    ++ codes "__user_conditional__.n"
    ++ (1 ∷ 0 ∷ 0 ∷ 0 ∷ 107 ∷ 0 ∷ 0 ∷ 0 ∷ 0 ∷ [])

built : build_request identity name (codes "id") conditions mutations ≡ ok command
unfolding build_request is_namespace is_request_id is_namespace_byte check_conditions
    check_condition check_mutations check_mutation valid_operator valid_mutation value_size
    byte_array_json_size items_size digits_size contains_key mutation_key command_sha command_bytes
    conditions_bytes condition_bytes mutations_bytes mutation_bytes field_bytes expected_bytes
    operator_byte put_le to_unsigned every bytes_equal
built = refl

new_request-same-command_example :
    ((name ≡ name) × (conditions ≡ conditions) × (mutations ≡ mutations))
    ⊎ ((a : Bytes) × (b : Bytes) × (a ≢ b) × (identity a ≡ identity b))
new_request-same-command_example =
    new_request-same-command identity name name (codes "id") (codes "id") conditions conditions
      mutations mutations command (omega arith, (tt, tt)) (omega arith, (tt, tt)) built built

build_request-iff-IsValidRequest_example :
    ((sha : Bytes) × (build_request identity name (codes "id") conditions mutations ≡ ok sha))
    ↔ IsValidRequest name (codes "id") conditions mutations
build_request-iff-IsValidRequest_example =
    build_request-iff-IsValidRequest identity name (codes "id") conditions mutations

value_matches-iff-Holds_example :
    (value_matches none (some []) CompareOperator.lt ≡ true)
    ↔ Holds CompareOperator.lt none (some [])
value_matches-iff-Holds_example = value_matches-iff-Holds none (some []) CompareOperator.lt

add_int64-exact_example :
    (((add_int64 (pos (2 ^ 63 - 1)) (pos 1)).1 ≡ false)
      ↔ IsSigned (2 ^ 63) (pos (2 ^ 63 - 1) +ℤ pos 1))
    × (IsSigned (2 ^ 63) (pos (2 ^ 63 - 1) +ℤ pos 1)
        → (add_int64 (pos (2 ^ 63 - 1)) (pos 1)).0 ≡ pos (2 ^ 63 - 1) +ℤ pos 1)
add_int64-exact_example = add_int64-exact (pos (2 ^ 63 - 1)) (pos 1) (omega arith) (omega arith)

length-marshal_bytes_example :
    length (marshal_bytes (some (7 ∷ 255 ∷ []))) ≡ byte_array_json_size (7 ∷ 255 ∷ [])
length-marshal_bytes_example = length-marshal_bytes (7 ∷ 255 ∷ []) (omega arith, (omega arith, tt))

abbrev receipt : Receipt
receipt = record {
  version = 2;
  request_id = codes "id";
  command_sha256 = command;
  revision = 1;
  outcome = Outcome.applied;
  conflict = none;
  conditions =
      record {
        index = 0;
        keyspace = keyspace_of name;
        key = codes "k";
        before = none;
        after = some [];
        matched = some true;
        before_i64 = none;
        after_i64 = none;
      }
      ∷ [];
  mutations =
      record {
        index = 0;
        keyspace = keyspace_of name;
        key = codes "c";
        before = none;
        after = some (0 ∷ 0 ∷ 0 ∷ 0 ∷ 0 ∷ 0 ∷ 0 ∷ 5 ∷ []);
        matched = none;
        before_i64 = some (pos 0);
        after_i64 = some (pos 5);
      }
      ∷ record {
        index = 1;
        keyspace = keyspace_of name;
        key = codes "k";
        before = none;
        after = some [];
        matched = none;
        before_i64 = none;
        after_i64 = none;
      }
      ∷ [];
  receipt_sha256 = [];
}

checked : validate_receipt receipt name conditions mutations ≡ ok tt
unfolding validate_receipt mutation_key bytes_equal compare_nullable from_unsigned to_unsigned
checked = refl

validate_receipt-evidence_example :
    All2 (IsConditionEvidence (keyspace_of name)) 0 receipt.conditions conditions
    × All2 (IsMutationEvidence (keyspace_of name) receipt.outcome) 0 receipt.mutations mutations
validate_receipt-evidence_example =
    validate_receipt-evidence receipt name conditions mutations (omega arith, (tt, tt))
      (omega arith, (tt, tt)) checked

abbrev request : Request
request = record {
  namespace = name;
  request_id = codes "id";
  conditions = conditions;
  mutations = mutations;
  command_sha256 = command;
}

abbrev wire_result : WireResult
wire_result = record {
  result = codes "applied";
  original_result = codes "applied";
  applied = some true;
  duplicate = some false;
  revision = some 1;
  quorum_receipt = absent;
}

abbrev result : TransactionResult
result = record {
  kind = applied_result;
  original = Outcome.applied;
  applied = true;
  rejected = false;
  duplicate = false;
  revision = 1;
  receipt = receipt;
  quorum = none;
}

abbrev wire_lookup : WireLookup
wire_lookup = record {
  result = codes "receipt";
  request_id = codes "id";
  revision = some 1;
  receipt = value (ok (receipt, []));
  has_stream_receipt = false;
  quorum_receipt = absent;
}

looked_up : finish_lookup wire_lookup request ≡ ok (found receipt none)
unfolding finish_lookup lookup_found lookup_receipt present validated optional_quorum
    validate_receipt mutation_key bytes_equal compare_nullable from_unsigned to_unsigned
looked_up = refl

finish_lookup-IsLookup_example : IsLookup wire_lookup request (found receipt none)
finish_lookup-IsLookup_example =
    finish_lookup-IsLookup wire_lookup request (found receipt none) looked_up
