-- ===== src/KvRead/Requests.antt =====
-- talon_kv_read.go: the bytes that `encodeNativeKVKeys` writes, and the keys in them.
use talon_sdk_go.Base.{
  ℕ, zero, suc, ◌+◌, ◌≤◌, ◌≡◌, refl, ap, ◌∙◌, ◌↔◌, true, false, List, [], ◌∷◌, ◌++◌, append-nil,
  Bytes, ok, All, length, length-append, take, drop, take-append_at, drop-append_at,
  take-length_append, drop-length_append, arith,
}
use talon_sdk_go.Base.Words.{put_le, get_le, length-put_le, get_le-put_le}
use talon_sdk_go.KvRead.{encode_keys, request_size, key_bytes, max_key, max_keys, max_request}

-- The bytes that the keys take in a request.
abbrev pub keys_size : List Bytes → ℕ
keys_size [] = 0
keys_size (key ∷ keys) = 4 + length key + keys_size keys

-- The keys as the native library reads them: each behind its length.
abbrev pub read_keys : ℕ → Bytes → List Bytes
read_keys zero wire = []
read_keys (suc n) wire =
    let size = get_le (take 4 wire) in
    take size (drop 4 wire) ∷ read_keys n (drop size (drop 4 wire))

length-key_bytes : (keys : List Bytes) → length (key_bytes keys) ≡ keys_size keys
unfolding key_bytes
length-key_bytes [] = refl
length-key_bytes (key ∷ keys) = omega (
  arith,
  length-append (put_le 4 (length key)) (key ++ key_bytes keys),
  length-append key (key_bytes keys),
  length-put_le 4 (length key),
  length-key_bytes keys,
)

request_size_ok :
    (keys : List Bytes) (size total : ℕ)
    → request_size size keys ≡ ok total
    → (total ≡ size + keys_size keys)
      × (size ≤ max_request → total ≤ max_request)
      × All (λ key. length key ≤ max_key) keys
unfolding request_size
request_size_ok [] size total h = ground arith
request_size_ok (key ∷ keys) size total h =
    ground (arith, request_size_ok keys (size + (4 + length key)) total)

request_size_fits :
    (keys : List Bytes) (size : ℕ)
    → All (λ key. length key ≤ max_key) keys
    → size + keys_size keys ≤ max_request
    → request_size size keys ≡ ok (size + keys_size keys)
unfolding request_size
request_size_fits [] size h b = ground arith
request_size_fits (key ∷ keys) size h b =
    ground (arith, h.0, request_size_fits keys (size + (4 + length key)) h.1 (omega arith))

read_keys-key_bytes :
    (keys : List Bytes)
    → All (λ key. length key ≤ max_key) keys
    → read_keys (length keys) (key_bytes keys) ≡ keys
unfolding key_bytes
read_keys-key_bytes [] h = refl
read_keys-key_bytes (key ∷ keys) h =
    let header = put_le 4 (length key) in
    let size : get_le (take 4 (header ++ (key ++ key_bytes keys))) ≡ length key =
      ap get_le (take-append_at header (key ++ key_bytes keys) 4 (length-put_le 4 (length key)))
      ∙ get_le-put_le 4 (length key) (omega (arith, h.0)) in
    rw size (
      rw (drop-append_at header (key ++ key_bytes keys) 4 (length-put_le 4 (length key))) (
        rw (take-length_append key (key_bytes keys))
          (rw (drop-length_append key (key_bytes keys)) (rw (read_keys-key_bytes keys h.1) refl))))

-- The keys that fit a request of several keys.
abbrev pub Fits : List Bytes → Type 0
Fits keys =
    (length keys ≤ max_keys)
    × All (λ key. length key ≤ max_key) keys
    × (4 + keys_size keys ≤ max_request)

encode_keys_tests :
    (keys : List Bytes) (wire : Bytes)
    → encode_keys keys true ≡ ok wire
    → (length keys ≤ max_keys)
      × ((total : ℕ) × (request_size 4 keys ≡ ok total))
      × (wire ≡ put_le 4 (length keys) ++ key_bytes keys)
unfolding encode_keys
encode_keys_tests keys wire h = ground arith

encode_keys_small :
    (keys : List Bytes)
    → Fits keys
    → encode_keys keys true ≡ ok (put_le 4 (length keys) ++ key_bytes keys)
unfolding encode_keys
encode_keys_small keys h = ground (arith, h.0, request_size_fits keys 4 h.1 h.2)

encode_keys-Fits : (keys : List Bytes) (wire : Bytes) → encode_keys keys true ≡ ok wire → Fits keys
encode_keys-Fits keys wire h =
    let (few, (total, sized), written) = encode_keys_tests keys wire h in
    let (sum, bound, small) = request_size_ok keys 4 total sized in
    (few, small, omega (arith, sum, bound (omega arith)))

-- A request for several keys is made just when they are at most 4096, none is longer than 64 KiB
-- and they fit 1 MiB with their lengths.
pub encode_keys-iff-Fits :
    (keys : List Bytes) → ((wire : Bytes) × (encode_keys keys true ≡ ok wire)) ↔ Fits keys
encode_keys-iff-Fits keys = (
  λ r. encode_keys-Fits keys r.0 r.1,
  λ h. (put_le 4 (length keys) ++ key_bytes keys, encode_keys_small keys h),
)

-- A request for several keys starts with their number, the keys are read from it in order, and it is
-- within 1 MiB.
pub read_keys-encode_keys :
    (keys : List Bytes) (wire : Bytes)
    → encode_keys keys true ≡ ok wire
    → (get_le (take 4 wire) ≡ length keys)
      × (read_keys (length keys) (drop 4 wire) ≡ keys)
      × (length wire ≡ 4 + keys_size keys)
      × (length wire ≤ max_request)
read_keys-encode_keys keys wire h =
    let header = put_le 4 (length keys) in
    let header_size = length-put_le 4 (length keys) in
    let (few, (total, sized), written) = encode_keys_tests keys wire h in
    let (few', small, bound) = encode_keys-Fits keys wire h in
    let size : length wire ≡ 4 + keys_size keys =
      ap length written
      ∙ omega (arith, length-append header (key_bytes keys), header_size, length-key_bytes keys) in
    (
      ap (λ w. get_le (take 4 w)) written
          ∙ (ap get_le (take-append_at header (key_bytes keys) 4 header_size)
              ∙ get_le-put_le 4 (length keys) (omega (arith, few))),
      ap (λ w. read_keys (length keys) (drop 4 w)) written
          ∙ (ap (read_keys (length keys)) (drop-append_at header (key_bytes keys) 4 header_size)
              ∙ read_keys-key_bytes keys small),
      size,
      omega (arith, size, bound),
    )

-- The request for one key carries it alone.
pub encode_keys_one :
    (key wire : Bytes)
    → encode_keys (key ∷ []) false ≡ ok wire
    → (wire ≡ put_le 4 (length key) ++ key) × (length key ≤ max_key)
unfolding encode_keys key_bytes request_size
encode_keys_one key wire h = ground (arith, append-nil key)
