-- ===== src/KvRead/Tests.antt =====
-- Runs of the key-value reads at fixed inputs, and the theorems at inputs that meet their hypotheses.
use talon_sdk_go.Base.{
  ℕ, zero, suc, ◌≡◌, refl, Bool, true, List, [], ◌∷◌, ◌++◌, Bytes, codes, ok, arith, map, take,
  drop, if◌then◌else◌, bytes_equal, ◌≤◌, length, ◌↔◌, All, ◌+◌,
}
use talon_sdk_go.Base.Words.{put_le, get_le}
use talon_sdk_go.Native.{
  NativeInfo, require_capability, find_gate, is_gated, require_named, named_capability,
  is_implemented, contains_string,
}
use talon_sdk_go.KvRead.{
  KvBytes, missing_value, NativeReply, output, failure, Db, kv_mget, kv_exists, encode_keys,
  parse_mget, parse_get, native_read, max_request, max_reply, request_size, key_bytes, parse_exists,
  checked_reply,
}
use talon_sdk_go.KvRead.Requests.{
  read_keys, Fits, keys_size, read_keys-encode_keys, encode_keys-iff-Fits,
}
use talon_sdk_go.KvRead.Replies.{
  value_bytes, values_bytes, IsReplied, parse_mget-iff-values_bytes, parse_get-iff-value_bytes,
}
use talon_sdk_go.KvRead.Reads.{
  IsReady, kv_mget-lookup, native_read-iff-output, count_present, kv_exists-count_present,
}

abbrev a_key : Bytes
a_key = codes "a"

abbrev two_keys : List Bytes
two_keys = a_key ∷ codes "bc" ∷ []

-- A store that holds "x" under "a" and nothing else.
abbrev stored : Bytes → KvBytes
stored key =
    if bytes_equal key a_key then record { value = codes "x"; present = true } else missing_value

abbrev held : Bytes → Bool
held key = bytes_equal key a_key

-- A library that answers MGET and EXISTS from the store, and fails otherwise.
abbrev library : ℕ → Bytes → NativeReply
library (suc (suc zero)) request =
    let n = get_le (take 4 request) in
    output (put_le 4 n ++ values_bytes (map stored (read_keys n (drop 4 request))))
library (suc (suc (suc zero))) request =
    let n = get_le (take 4 request) in
    output (put_le 8 (count_present held (read_keys n (drop 4 request))))
library _ request = failure (codes "unavailable")

abbrev attested : NativeInfo
attested = record {
  features = codes "native_kv_read_v1" ∷ [];
  capabilities =
      record { name = codes "native_kv_read"; version = 1; status = codes "available" } ∷ [];
  gates = [];
}

abbrev opened : Db
opened = record { is_open = true; native_info = attested }

attested_kv_read : require_capability attested (codes "native_kv_read") ≡ ok tt
unfolding require_capability is_gated find_gate require_named named_capability is_implemented
    contains_string bytes_equal
attested_kv_read = refl

kv_mget-lookup_example : kv_mget library opened two_keys ≡ ok (map stored two_keys)
kv_mget-lookup_example =
    kv_mget-lookup library opened stored two_keys (attested_kv_read, refl)
      (omega arith, (omega arith, (omega arith, tt)), omega arith)
      (unfold bytes_equal in (omega arith, (refl, tt))) (λ request. refl)
      (unfold bytes_equal put_le in omega arith)

abbrev one_value : List KvBytes
one_value = record { value = codes "x"; present = true } ∷ missing_value ∷ []

abbrev mget_reply : Bytes
mget_reply = 2 ∷ 0 ∷ 0 ∷ 0 ∷ 1 ∷ 1 ∷ 0 ∷ 0 ∷ 0 ∷ 120 ∷ 0 ∷ []

parse_mget-iff-values_bytes_example : (parse_mget mget_reply 2 ≡ ok one_value) ↔ (
    (mget_reply ≡ put_le 4 2 ++ values_bytes one_value)
    × (length one_value ≡ 2)
    × All IsReplied one_value)
parse_mget-iff-values_bytes_example =
    parse_mget-iff-values_bytes mget_reply 2 one_value
      (
        omega arith,
        (
          omega arith,
          (
            omega arith,
            (
              omega arith,
              (
                omega arith,
                (
                  omega arith,
                  (omega arith, (omega arith, (omega arith, (omega arith, (omega arith, tt))))),
                ),
              ),
            ),
          ),
        ),
      )
      (omega arith)

parse_get-iff-value_bytes_example :
    (parse_get (0 ∷ []) ≡ ok missing_value)
    ↔ ((0 ∷ [] ≡ value_bytes missing_value) × IsReplied missing_value)
parse_get-iff-value_bytes_example =
    parse_get-iff-value_bytes (0 ∷ []) missing_value (omega arith, tt)

abbrev one_request : Bytes
one_request = 1 ∷ 0 ∷ 0 ∷ 0 ∷ 1 ∷ 0 ∷ 0 ∷ 0 ∷ 97 ∷ []

encoded_keys : encode_keys (a_key ∷ []) true ≡ ok one_request
unfolding encode_keys request_size key_bytes put_le
encoded_keys = refl

read_keys-encode_keys_example :
    (get_le (take 4 one_request) ≡ 1)
    × (read_keys 1 (drop 4 one_request) ≡ a_key ∷ [])
    × (length one_request ≡ 4 + keys_size (a_key ∷ []))
    × (length one_request ≤ max_request)
read_keys-encode_keys_example = read_keys-encode_keys (a_key ∷ []) one_request encoded_keys

counted : kv_exists library opened two_keys ≡ ok 1
unfolding kv_exists encode_keys request_size key_bytes native_read require_capability is_gated
    find_gate require_named named_capability is_implemented contains_string bytes_equal
    checked_reply parse_exists put_le get_le
counted = refl

kv_exists-count_present_example :
    kv_exists library opened two_keys ≡ ok (count_present held two_keys)
kv_exists-count_present_example =
    kv_exists-count_present library opened held two_keys (attested_kv_read, refl)
      (omega arith, (omega arith, (omega arith, tt)), omega arith) (λ request. refl)

encode_keys-iff-Fits_example :
    ((wire : Bytes) × (encode_keys two_keys true ≡ ok wire)) ↔ Fits two_keys
encode_keys-iff-Fits_example = encode_keys-iff-Fits two_keys

native_read-iff-output_example : (native_read library opened 3 (0 ∷ []) ≡ ok (0 ∷ [])) ↔ (
    IsReady opened
    × (1 ≤ 1)
    × (1 ≤ max_request)
    × (library 3 (0 ∷ []) ≡ output (0 ∷ []))
    × (1 ≤ max_reply))
native_read-iff-output_example = native_read-iff-output library opened 3 (0 ∷ []) (0 ∷ [])
