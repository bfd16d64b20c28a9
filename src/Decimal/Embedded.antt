-- ===== src/Decimal/Embedded.antt =====
-- The printers of the embedded path: `formatDecimal` of talon_params.go and `decimalText` of
-- goframe/native_sql.go, beside `Decimal.Text` of the server path.
use talon_sdk_go.Base.{
  ℕ, suc, ◌+◌, ◌-◌, ◌≤◌, ◌<◌, ◌≡◌, refl, sym, ap, ◌∙◌, Bool, true, false, some, ◌∷◌, ◌++◌, Bytes,
  ltb, leb, ◌==◌, if◌then◌else◌, length, length-append, take, drop, replicate, length-replicate,
  arith, Bool-cases, leb→le, inl, inr,
}
use talon_sdk_go.Base.Int.{ℤ}
use talon_sdk_go.Decimal.{point_text, sign_text, text}
use talon_sdk_go.Decimal.Digits.{number_text, magnitude, is_negative, length-number_text}

-- `digits` with zeros in front, so that one digit at least stands before the point.
pub pad_digits : Bytes → ℕ → Bytes
pad_digits digits scale =
    if leb (length digits) scale
    then replicate (scale + 1 - length digits) b'0' ++ digits
    else digits

pub insert_point : Bytes → ℕ → Bytes
insert_point digits scale =
    let index = length digits - scale in
    if ltb 0 scale then take index digits ++ b'.' ∷ drop index digits else digits

-- formatDecimal
pub format_decimal : ℤ → ℕ → Bytes
format_decimal coefficient scale =
    let body = insert_point (pad_digits (number_text (magnitude coefficient)) scale) scale in
    if is_negative coefficient then b'-' ∷ body else body

-- decimalText
pub decimal_text : ℤ → ℕ → Bytes
decimal_text coefficient scale =
    let body = insert_point (pad_digits (number_text (magnitude coefficient)) scale) scale in
    if is_negative coefficient then b'-' ∷ body else body

insert_point_at :
    (xs : Bytes) (scale i : ℕ)
    → 0 < scale
    → length xs - scale ≡ i
    → insert_point xs scale ≡ take i xs ++ b'.' ∷ drop i xs
unfolding insert_point
insert_point_at xs scale i h e = ground arith

insert_point_zero : (xs : Bytes) (scale : ℕ) → scale ≡ 0 → insert_point xs scale ≡ xs
unfolding insert_point
insert_point_zero xs scale h = ground arith

-- Padding puts one zero before the zeros that `Text` writes behind the point.
pad_digits_short :
    (digits : Bytes) (scale : ℕ)
    → length digits ≤ scale
    → pad_digits digits scale ≡ b'0' ∷ (replicate (scale - length digits) b'0' ++ digits)
unfolding pad_digits
pad_digits_short digits scale h =
    let k : scale + 1 - length digits ≡ suc (scale - length digits) = omega arith in
    ground (arith, ap (λ m. replicate m b'0' ++ digits) k)

pad_digits_long :
    (digits : Bytes) (scale : ℕ) → scale < length digits → pad_digits digits scale ≡ digits
unfolding pad_digits
pad_digits_long digits scale h = ground arith

module _ (digits : Bytes) (scale : ℕ) (n : 1 ≤ length digits) where
  insert_point_short :
      0 < scale
      → length digits ≤ scale
      → insert_point (pad_digits digits scale) scale ≡ point_text digits scale
  insert_point_short h small =
      ap (λ t. insert_point t scale) (pad_digits_short digits scale small)
      ∙ (insert_point_at (b'0' ∷ (replicate (scale - length digits) b'0' ++ digits)) scale 1 h (
            omega (
              arith,
              length-append (replicate (scale - length digits) b'0') digits,
              length-replicate {A = ℕ} (scale - length digits) b'0',
            ))
          ∙ sym (unfold point_text in ground arith))

  insert_point_long :
      scale < length digits → insert_point (pad_digits digits scale) scale ≡ point_text digits scale
  unfolding point_text
  insert_point_long large =
      ap (λ t. insert_point t scale) (pad_digits_long digits scale large)
      ∙ elim (Bool-cases (scale == 0)) [
        | inl z ↦ insert_point_zero digits scale (ground arith) ∙ ground arith
        | inr s ↦
            insert_point_at digits scale (length digits - scale) (ground arith) refl ∙ ground arith
      ]

  insert_point-pad_digits : insert_point (pad_digits digits scale) scale ≡ point_text digits scale
  insert_point-pad_digits = elim (Bool-cases (leb (length digits) scale)) [
    | inl small ↦ insert_point_short (ground arith) (leb→le (length digits) scale small)
    | inr large ↦ insert_point_long (ground arith)
  ]

-- `if negative { return "-" + digits }` is the sign that the server path writes first.
signed_body :
    (negative : Bool) (body : Bytes)
    → (if negative then b'-' ∷ body else body) ≡ sign_text negative ++ body
signed_body true body = refl
signed_body false body = refl

-- The three printers of a decimal write the same text, for every coefficient and scale.
pub format_decimal-eq-text :
    (c : ℤ) (scale : ℕ)
    → (format_decimal c scale ≡ text (record { coefficient = some c; scale = scale }))
      × (decimal_text c scale ≡ text (record { coefficient = some c; scale = scale }))
unfolding format_decimal decimal_text text
format_decimal-eq-text c scale =
    let ds = number_text (magnitude c) in
    let e : insert_point (pad_digits ds scale) scale ≡ point_text ds scale =
      insert_point-pad_digits ds scale (length-number_text (magnitude c)) in
    let p =
      signed_body (is_negative c) (insert_point (pad_digits ds scale) scale)
      ∙ ap (λ t. sign_text (is_negative c) ++ t) e in
    (p, p)
