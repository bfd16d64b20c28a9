-- ===== src/KvRead/Reads.antt =====
-- talon_kv_read.go: `nativeKVRead` and the reads on top of it.
use talon_sdk_go.Base.{
  ◌<◌, ◌^◌, Bool, if◌then◌else◌, ℕ, suc, ◌+◌, ◌≤◌, ◌≡◌, refl, ap, ◌∙◌, ◌↔◌, true, List, [], ◌∷◌,
  ◌++◌, map, Bytes, ok, All, length, length-append, take, drop, arith, codes,
}
use talon_sdk_go.Base.Words.{put_le, get_le, length-put_le, get_le-put_le}
use talon_sdk_go.Native.{require_capability}
use talon_sdk_go.KvRead.{
  Db, NativeReply, null_output, output, failure, checked_reply, native_read, kv_mget, kv_exists,
  op_mget, op_exists, max_request, max_reply, encode_keys, parse_mget, parse_exists, KvBytes,
}
use talon_sdk_go.KvRead.Requests.{Fits, read_keys, encode_keys-iff-Fits, read_keys-encode_keys}
use talon_sdk_go.KvRead.Replies.{values_bytes, IsReplied, parse_mget-values_bytes}

-- The conditions under which the native library is asked at all.
abbrev pub IsReady : Db → Type 0
IsReady db =
    (require_capability db.native_info (codes "native_kv_read") ≡ ok tt) × (db.is_open ≡ true)

length-map : (f : Bytes → KvBytes) (keys : List Bytes) → length (map f keys) ≡ length keys
length-map f [] = refl
length-map f (key ∷ keys) = ap suc (length-map f keys)

module _ (core : ℕ → Bytes → NativeReply) (db : Db) where
  native_read_tests :
      (operation : ℕ) (request reply : Bytes)
      → native_read core db operation request ≡ ok reply
      → IsReady db
        × (1 ≤ length request)
        × (length request ≤ max_request)
        × (checked_reply (core operation request) ≡ ok reply)
  unfolding native_read
  native_read_tests operation request reply h = ground arith

  native_read_ready :
      (operation : ℕ) (request : Bytes)
      → IsReady db
      → 1 ≤ length request
      → length request ≤ max_request
      → native_read core db operation request ≡ checked_reply (core operation request)
  unfolding native_read
  native_read_ready operation request h a b = rw h.0 (rw h.1 (ground arith))

checked_reply_output :
    (answer : NativeReply) (reply : Bytes)
    → checked_reply answer ≡ ok reply
    → (answer ≡ output reply) × (length reply ≤ max_reply)
unfolding checked_reply
checked_reply_output null_output reply h = cc
checked_reply_output (output bytes) reply h = ground arith
checked_reply_output (failure code) reply h = cc

checked_reply_fits :
    (reply : Bytes) → length reply ≤ max_reply → checked_reply (output reply) ≡ ok reply
unfolding checked_reply
checked_reply_fits reply b = ground arith

-- How many of the keys a store holds.
abbrev pub count_present : (Bytes → Bool) → List Bytes → ℕ
count_present present [] = 0
count_present present (key ∷ keys) = (if present key then 1 else 0) + count_present present keys

count_present-le-length :
    (present : Bytes → Bool) (keys : List Bytes) → count_present present keys ≤ length keys
count_present-le-length present [] = omega arith
count_present-le-length present (key ∷ keys) = ground (arith, count_present-le-length present keys)

parse_exists-put_le :
    (keys n : ℕ) → n ≤ keys → keys < 2 ^ 63 → parse_exists (put_le 8 n) keys ≡ ok n
unfolding parse_exists
parse_exists-put_le keys n small bound =
    let size = length-put_le 8 n in
    let back : get_le (put_le 8 n) ≡ n = get_le-put_le 8 n (omega (arith, small, bound)) in
    rw back (ground (arith, size, small, bound))

module _ (core : ℕ → Bytes → NativeReply) (db : Db) where
  -- A native read returns bytes just when the capability is open, the database is open, the request
  -- is within the bound and the library gave just those bytes, 64 MiB at most.
  pub native_read-iff-output :
      (operation : ℕ) (request reply : Bytes)
      → (native_read core db operation request ≡ ok reply) ↔ (
          IsReady db
          × (1 ≤ length request)
          × (length request ≤ max_request)
          × (core operation request ≡ output reply)
          × (length reply ≤ max_reply))
  native_read-iff-output operation request reply = (
    λ h.
        let (ready, some, few, checked) = native_read_tests core db operation request reply h in
        let (answer, size) = checked_reply_output (core operation request) reply checked in
        (ready, some, few, answer, size),
    λ (ready, some, few, answer, size).
        native_read_ready core db operation request ready some few
        ∙ (ap checked_reply answer ∙ checked_reply_fits reply size),
  )

  kv_mget_step :
      (keys : List Bytes) (request reply : Bytes)
      → encode_keys keys true ≡ ok request
      → native_read core db op_mget request ≡ ok reply
      → kv_mget core db keys ≡ parse_mget reply (length keys)
  unfolding kv_mget
  kv_mget_step keys request reply e r = rw e (rw r refl)

  kv_exists_step :
      (keys : List Bytes) (request reply : Bytes)
      → encode_keys keys true ≡ ok request
      → native_read core db op_exists request ≡ ok reply
      → kv_exists core db keys ≡ parse_exists reply (length keys)
  unfolding kv_exists
  kv_exists_step keys request reply e r = rw e (rw r refl)

  -- When the library answers an MGET request with the values that a store holds for the keys it reads
  -- from the request, then `KVMGetBytes` returns the values of its keys in order, missing ones included,
  -- for all keys that fit a request and replies that fit the bound.
  pub kv_mget-lookup :
      (lookup : Bytes → KvBytes) (keys : List Bytes)
      → IsReady db
      → Fits keys
      → All IsReplied (map lookup keys)
      → ((request : Bytes)
          → core op_mget request ≡ (
              let n = get_le (take 4 request) in
              output (put_le 4 n ++ values_bytes (map lookup (read_keys n (drop 4 request))))))
      → length (values_bytes (map lookup keys)) + 4 ≤ max_reply
      → kv_mget core db keys ≡ ok (map lookup keys)
  kv_mget-lookup lookup keys ready fits replied answers size =
      let (request, written) = (encode_keys-iff-Fits keys).1 fits in
      let (number, read, total, bound) = read_keys-encode_keys keys request written in
      let values = map lookup keys in
      let reply = put_le 4 (length keys) ++ values_bytes values in
      let answer : core op_mget request ≡ output reply =
        answers request
        ∙ (ap (λ n. output (put_le 4 n ++ values_bytes (map lookup (read_keys n (drop 4 request)))))
              number
            ∙ ap (λ ks. output (put_le 4 (length keys) ++ values_bytes (map lookup ks))) read) in
      let fits_reply : length reply ≤ max_reply = omega (
        arith,
        size,
        length-append (put_le 4 (length keys)) (values_bytes values),
        length-put_le 4 (length keys),
      ) in
      kv_mget_step keys request reply written (
        (native_read-iff-output op_mget request reply).1
          (ready, omega (arith, total), bound, answer, fits_reply))
      ∙ parse_mget-values_bytes (length keys) values (omega (arith, fits.0))
          (length-map lookup keys) replied

  -- When the library answers an EXISTS request with the number of the keys, of those that it reads from
  -- the request, that a store holds, each as often as it stands there, then `KVExistsBytes` returns that
  -- number for its keys, for all keys that fit a request.
  pub kv_exists-count_present :
      (present : Bytes → Bool) (keys : List Bytes)
      → IsReady db
      → Fits keys
      → ((request : Bytes)
          → core op_exists request ≡ (
              let n = get_le (take 4 request) in
              output (put_le 8 (count_present present (read_keys n (drop 4 request))))))
      → kv_exists core db keys ≡ ok (count_present present keys)
  kv_exists-count_present present keys ready fits answers =
      let (request, written) = (encode_keys-iff-Fits keys).1 fits in
      let (number, read, total, bound) = read_keys-encode_keys keys request written in
      let reply = put_le 8 (count_present present keys) in
      let answer : core op_exists request ≡ output reply =
        answers request
        ∙ (ap (λ n. output (put_le 8 (count_present present (read_keys n (drop 4 request))))) number
            ∙ ap (λ ks. output (put_le 8 (count_present present ks))) read) in
      let fits_reply : length reply ≤ max_reply =
        omega (arith, length-put_le 8 (count_present present keys)) in
      kv_exists_step keys request reply written (
        (native_read-iff-output op_exists request reply).1
          (ready, omega (arith, total), bound, answer, fits_reply))
      ∙ parse_exists-put_le (length keys) (count_present present keys)
          (count_present-le-length present keys) (omega (arith, fits.0))
