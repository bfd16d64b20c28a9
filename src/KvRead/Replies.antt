-- ===== src/KvRead/Replies.antt =====
-- talon_kv_read.go: the replies of the native library, and `parseNativeKVGet` and `parseNativeKVMGet`.
use talon_sdk_go.Base.{
  ℕ, zero, suc, ◌%◌, ◌^◌, ◌≤◌, ◌<◌, ◌≡◌, refl, sym, ap, subst, ◌∙◌, ◌↔◌, ◌⊎◌, inl, inr, Bool, true,
  false, List, [], ◌∷◌, ◌++◌, append_assoc, append-nil, Bytes, AllBytes, ok, bind_ok, Result-cases,
  ◌>>=◌, All, ltb-false, take-append-drop, length, length-append, take, drop, take-append_at,
  drop-append_at, take-length_append, drop-length_append, length-take, arith,
}
use talon_sdk_go.Base.Words.{put_le, get_le, length-put_le, get_le-put_le, put_le-get_le, get_le-lt}
use talon_sdk_go.KvRead.{
  KvBytes, missing_value, take_value, parse_value, parse_values, parse_mget, parse_get, finish_get,
}

-- A reply's value: the tag 0 for a missing key, or 1, the length and the bytes.
abbrev pub value_bytes : KvBytes → Bytes
value_bytes v = elim v.present [
  | true ↦ 1 ∷ (put_le 4 (length v.value) ++ v.value)
  | false ↦ 0 ∷ []
]

abbrev pub values_bytes : List KvBytes → Bytes
values_bytes [] = []
values_bytes (v ∷ vs) = value_bytes v ++ values_bytes vs

-- A missing key has no value, and a value is shorter than 4 GiB.
abbrev pub IsReplied : KvBytes → Type 0
IsReplied v = elim v.present [ true ↦ length v.value < 2 ^ 32 | false ↦ v.value ≡ [] ]

parse_value_present :
    (value rest : Bytes)
    → length value < 2 ^ 32
    → parse_value (1 ∷ ((put_le 4 (length value) ++ value) ++ rest))
      ≡ ok (record { value = value; present = true }, rest)
unfolding parse_value take_value
parse_value_present value rest h =
    let header = put_le 4 (length value) in
    let size = length-put_le 4 (length value) in
    rw (append_assoc header value rest) (
      rw
        (ltb-false (length (header ++ (value ++ rest))) 4
          (omega (arith, length-append header (value ++ rest), size)))
        (rw (take-append_at header (value ++ rest) 4 size) (
          rw (drop-append_at header (value ++ rest) 4 size) (
            rw (get_le-put_le 4 (length value) h) (
              rw (length-append value rest) (
                rw (take-length_append value rest)
                  (rw (drop-length_append value rest) (ground arith))))))))

parse_made_value :
    (value : Bytes) (present : Bool) (rest : Bytes)
    → IsReplied (record { value = value; present = present })
    → parse_value (value_bytes (record { value = value; present = present }) ++ rest)
      ≡ ok (record { value = value; present = present }, rest)
parse_made_value value true rest h = parse_value_present value rest h
parse_made_value value false rest h =
    unfold parse_value in ap (λ x. ok (record { value = x; present = false }, rest)) (sym h)

parse_value-value_bytes :
    (v : KvBytes) (rest : Bytes) → IsReplied v → parse_value (value_bytes v ++ rest) ≡ ok (v, rest)
parse_value-value_bytes v rest h = parse_made_value v.value v.present rest h

parse_values_cons :
    (n : ℕ) (v : KvBytes) (vs : List KvBytes) (wire rest : Bytes)
    → parse_value wire ≡ ok (v, rest)
    → parse_values n rest ≡ ok vs
    → parse_values (suc n) wire ≡ ok (v ∷ vs)
unfolding parse_values
parse_values_cons n v vs wire rest e more = ground (arith, e, more)

parse_values-values_bytes :
    (vs : List KvBytes) → All IsReplied vs → parse_values (length vs) (values_bytes vs) ≡ ok vs
parse_values-values_bytes [] h = unfold parse_values in refl
parse_values-values_bytes (v ∷ vs) h =
    parse_values_cons (length vs) v vs (value_bytes v ++ values_bytes vs) (values_bytes vs)
      (parse_value-value_bytes v (values_bytes vs) h.0) (parse_values-values_bytes vs h.1)

-- The converse: what the parser takes is the reply of its result.
take_value_ok :
    (size : ℕ) (wire rest : Bytes) (v : KvBytes)
    → take_value size wire ≡ ok (v, rest)
    → (v ≡ record { value = take size wire; present = true })
      × (rest ≡ drop size wire)
      × (size ≤ length wire)
unfolding take_value
take_value_ok size wire rest v h = ground arith

parse_value_cases :
    (tag : ℕ) (wire rest : Bytes) (v : KvBytes)
    → parse_value (tag ∷ wire) ≡ ok (v, rest)
    → ((tag ≡ 0) × (v ≡ missing_value) × (rest ≡ wire))
      ⊎ ((tag ≡ 1)
          × (4 ≤ length wire)
          × (take_value (get_le (take 4 wire)) (drop 4 wire) ≡ ok (v, rest)))
unfolding parse_value
parse_value_cases tag wire rest v h = ground arith

all_split : (n : ℕ) (wire : Bytes) → AllBytes wire → AllBytes (take n wire) × AllBytes (drop n wire)
all_split zero wire h = (tt, h)
all_split (suc n) [] h = (tt, tt)
all_split (suc n) (b ∷ wire) h = let (first, last) = all_split n wire h.1 in ((h.0, first), last)

length-take_of : (n : ℕ) (wire : Bytes) → n ≤ length wire → length (take n wire) ≡ n
length-take_of n wire h = omega (arith, length-take n wire)

header_bytes :
    (wire : Bytes) → AllBytes wire → 4 ≤ length wire → put_le 4 (get_le (take 4 wire)) ≡ take 4 wire
header_bytes wire h b =
    subst (λ k. put_le k (get_le (take 4 wire)) ≡ take 4 wire) (length-take_of 4 wire b)
      (put_le-get_le (take 4 wire) (all_split 4 wire h).0)

header-lt : (wire : Bytes) → AllBytes wire → 4 ≤ length wire → get_le (take 4 wire) < 2 ^ 32
header-lt wire h b =
    subst (λ k. get_le (take 4 wire) < 256 ^ k) (length-take_of 4 wire b)
      (get_le-lt (take 4 wire) (all_split 4 wire h).0)

rebuild :
    (wire : Bytes)
    → AllBytes wire
    → 4 ≤ length wire
    → get_le (take 4 wire) ≤ length (drop 4 wire)
    → (put_le 4 (length (take (get_le (take 4 wire)) (drop 4 wire)))
          ++ take (get_le (take 4 wire)) (drop 4 wire))
        ++ drop (get_le (take 4 wire)) (drop 4 wire)
      ≡ wire
rebuild wire h b s =
    let n = get_le (take 4 wire) in
    let body = drop 4 wire in
    append_assoc (put_le 4 (length (take n body))) (take n body) (drop n body)
    ∙ (ap (λ t. put_le 4 (length (take n body)) ++ t) (take-append-drop n body)
        ∙ (ap (λ k. put_le 4 k ++ body) (length-take_of n body s)
            ∙ (ap (λ t. t ++ body) (header_bytes wire h b) ∙ take-append-drop 4 wire)))

-- What the parser read, written again, and what follows it.
abbrev Reads : Bytes → KvBytes → Bytes → Type 0
Reads wire v rest = (wire ≡ value_bytes v ++ rest) × IsReplied v × AllBytes rest

read_present :
    (wire rest : Bytes) (v : KvBytes)
    → AllBytes wire
    → 4 ≤ length wire
    → take_value (get_le (take 4 wire)) (drop 4 wire) ≡ ok (v, rest)
    → Reads (1 ∷ wire) v rest
read_present wire rest v h b taken =
    let n = get_le (take 4 wire) in
    let (made, behind, size) = take_value_ok n (drop 4 wire) rest v taken in
    let count = length-take_of n (drop 4 wire) size in
    subst (λ u. Reads (1 ∷ wire) u rest) (sym made)
      (subst (λ r. Reads (1 ∷ wire) (record { value = take n (drop 4 wire); present = true }) r)
        (sym behind)
        (
          ap (λ w. 1 ∷ w) (sym (rebuild wire h b size)),
          subst (λ k. k < 2 ^ 32) (sym count) (header-lt wire h b),
          (all_split n (drop 4 wire) (all_split 4 wire h).1).1,
        ))

parse_value-Reads :
    (wire rest : Bytes) (v : KvBytes)
    → AllBytes wire
    → parse_value wire ≡ ok (v, rest)
    → Reads wire v rest
parse_value-Reads [] rest v h e = absurd (unfold parse_value in cc)
parse_value-Reads (tag ∷ wire) rest v h e = elim (parse_value_cases tag wire rest v e) [
  | inl (zero_tag, made, behind) ↦
      subst (λ t. Reads (t ∷ wire) v rest) (sym zero_tag)
        (subst (λ u. Reads (0 ∷ wire) u rest) (sym made)
          (ap (λ w. 0 ∷ w) (sym behind), refl, subst AllBytes (sym behind) h.1))
  | inr (one_tag, size, taken) ↦
      subst (λ t. Reads (t ∷ wire) v rest) (sym one_tag) (read_present wire rest v h.1 size taken)
]

values_behind :
    (n : ℕ) (wire rest : Bytes) (v : KvBytes) (vs : List KvBytes)
    → parse_value wire ≡ ok (v, rest)
    → parse_values (suc n) wire ≡ ok vs
    → (parse_values n rest >>= (λ values. ok (v ∷ values))) ≡ ok vs
unfolding parse_values
values_behind n wire rest v vs found h = ground (arith, found)

parse_values_step :
    (n : ℕ) (wire : Bytes) (vs : List KvBytes)
    → parse_values (suc n) wire ≡ ok vs
    → (v : KvBytes) × (rest : Bytes) × (more : List KvBytes) × (parse_value wire ≡ ok (v, rest))
      × (parse_values n rest ≡ ok more)
      × (vs ≡ v ∷ more)
parse_values_step n wire vs h = elim (Result-cases (parse_value wire)) [
  | inl (e, failed) ↦ absurd (unfold parse_values in ground (arith, failed))
  | inr ((v, rest), found) ↦
      let (more, others, whole) =
        bind_ok (parse_values n rest) (λ values. ok (v ∷ values))
          (values_behind n wire rest v vs found h) in
      (v, rest, more, found, others, ground (arith, whole))
]

parse_values_end : (vs : List KvBytes) → parse_values 0 [] ≡ ok vs → [] ≡ vs
unfolding parse_values
parse_values_end vs e = ground arith

parse_values-only :
    (n : ℕ) (wire : Bytes) (vs : List KvBytes)
    → AllBytes wire
    → parse_values n wire ≡ ok vs
    → (wire ≡ values_bytes vs) × (length vs ≡ n) × All IsReplied vs
parse_values-only zero [] vs h e =
    subst (λ us. ([] ≡ values_bytes us) × (length us ≡ 0) × All IsReplied us)
      (parse_values_end vs e) (refl, refl, tt)
parse_values-only zero (b ∷ wire) vs h e = absurd (unfold parse_values in cc)
parse_values-only (suc n) wire vs h e =
    let (v, rest, more, first, others, whole) = parse_values_step n wire vs e in
    let (read, replied, tail) = parse_value-Reads wire rest v h first in
    let (wire', count, all) = parse_values-only n rest more tail others in
    subst (λ us. (wire ≡ values_bytes us) × (length us ≡ suc n) × All IsReplied us) (sym whole)
      (read ∙ ap (λ r. value_bytes v ++ r) wire', ap suc count, (replied, all))

parse_mget_tests :
    (wire : Bytes) (want : ℕ) (vs : List KvBytes)
    → parse_mget wire want ≡ ok vs
    → (4 ≤ length wire)
      × (get_le (take 4 wire) ≡ want % 2 ^ 32)
      × (parse_values want (drop 4 wire) ≡ ok vs)
unfolding parse_mget
parse_mget_tests wire want vs h = ground arith

parse_mget-takes :
    (wire : Bytes) (want : ℕ)
    → 4 ≤ length wire
    → get_le (take 4 wire) ≡ want % 2 ^ 32
    → parse_mget wire want ≡ parse_values want (drop 4 wire)
unfolding parse_mget
parse_mget-takes wire want b e = ground arith

pub parse_mget-values_bytes :
    (want : ℕ) (vs : List KvBytes)
    → want < 2 ^ 32
    → length vs ≡ want
    → All IsReplied vs
    → parse_mget (put_le 4 want ++ values_bytes vs) want ≡ ok vs
parse_mget-values_bytes want vs b e h =
    let body = values_bytes vs in
    parse_mget-takes (put_le 4 want ++ body) want
      (omega (arith, length-append (put_le 4 want) body, length-put_le 4 want))
      (ap get_le (take-append_at (put_le 4 want) body 4 (length-put_le 4 want))
        ∙ omega (arith, get_le-put_le 4 want b))
    ∙ (ap (parse_values want) (drop-append_at (put_le 4 want) body 4 (length-put_le 4 want))
        ∙ (ap (λ k. parse_values k body) (sym e) ∙ parse_values-values_bytes vs h))

-- parseNativeKVMGet takes a reply for fewer than 2^32 keys just when it is their number and then one
-- value for each key, in order and with nothing behind, and returns those values.
pub parse_mget-iff-values_bytes :
    (wire : Bytes) (want : ℕ) (vs : List KvBytes)
    → AllBytes wire
    → want < 2 ^ 32
    → (parse_mget wire want ≡ ok vs)
      ↔ ((wire ≡ put_le 4 want ++ values_bytes vs) × (length vs ≡ want) × All IsReplied vs)
parse_mget-iff-values_bytes wire want vs h b = (
  λ e.
      let (size, number, read) = parse_mget_tests wire want vs e in
      let (body, count, all) =
        parse_values-only want (drop 4 wire) vs (all_split 4 wire h).1 read in
      let header : put_le 4 want ≡ take 4 wire =
        ap (put_le 4) (sym (number ∙ omega arith)) ∙ header_bytes wire h size in
      (
        sym (
            ap (λ t. t ++ values_bytes vs) header
            ∙ (ap (λ t. take 4 wire ++ t) (sym body) ∙ take-append-drop 4 wire)),
        count,
        all,
      ),
  λ (made, count, all).
      ap (λ w. parse_mget w want) made ∙ parse_mget-values_bytes want vs b count all,
)

parse_get_tests :
    (wire : Bytes) (v : KvBytes) → parse_get wire ≡ ok v → parse_value wire ≡ ok (v, [])
unfolding parse_get finish_get
parse_get_tests wire v h = ground arith

parse_get-takes :
    (wire : Bytes) (v : KvBytes) → parse_value wire ≡ ok (v, []) → parse_get wire ≡ ok v
unfolding parse_get finish_get
parse_get-takes wire v h = ground (arith, h)

-- parseNativeKVGet takes a reply just when it is one value, and returns that value; a missing key
-- and an empty value are different replies.
pub parse_get-iff-value_bytes :
    (wire : Bytes) (v : KvBytes)
    → AllBytes wire
    → (parse_get wire ≡ ok v) ↔ ((wire ≡ value_bytes v) × IsReplied v)
parse_get-iff-value_bytes wire v h = (
  λ e.
      let (read, replied, _) = parse_value-Reads wire [] v h (parse_get_tests wire v e) in
      (read ∙ append-nil (value_bytes v), replied),
  λ (made, replied). parse_get-takes wire v (
      ap parse_value (made ∙ sym (append-nil (value_bytes v)))
      ∙ parse_value-value_bytes v [] replied),
)
