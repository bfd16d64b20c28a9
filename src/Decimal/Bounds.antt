-- ===== src/Decimal/Bounds.antt =====
-- internal/serverprotocol/sql.go: `ParseDecimal` beside the checks of `NewDecimal`.
use native.Mathlib.Nat.{pow-suc, pow-le-pow_right, lt_of_lt_of_le}
use talon_sdk_go.Base.{
  ℕ, zero, suc, ◌+◌, ◌-◌, ◌*◌, ◌^◌, ◌≤◌, ◌<◌, ◌≡◌, ◌⊎◌, refl, sym, subst, Bool, true, false, some,
  [], ◌∷◌, ◌++◌, Bytes, ok, bind_ok, All, All-append, ◌==◌, if◌then◌else◌, length, arith,
  Bool-cases, inl, inr,
}
use talon_sdk_go.Base.Int.{ℤ, pos}
use talon_sdk_go.Decimal.{
  Decimal, Scan, Literal, scan_step, scan_loop, scan_start, scan_body, scan_decimal_literal,
  trim_zeros, finish_literal, parse_decimal, text, new_decimal, decimal_precision,
  max_decimal_precision,
}
use talon_sdk_go.Decimal.Digits.{
  is_digit, IsDigit, value_from, number_text, length-number_text-le, magnitude, negate,
}
use talon_sdk_go.Decimal.RoundTrip.{parse-text}

value-lt-pow :
    (ds : Bytes) (acc k : ℕ)
    → All IsDigit ds
    → acc < 10 ^ k
    → value_from acc ds < 10 ^ (k + length ds)
unfolding value_from
value-lt-pow [] acc k h b = subst (λ m. acc < 10 ^ m) (omega arith) b
value-lt-pow (c ∷ ds) acc k h b =
    subst (λ m. value_from (acc * 10 + (c - b'0')) ds < 10 ^ m) (omega arith)
      (value-lt-pow ds (acc * 10 + (c - b'0')) (suc k) h.1 (rw pow-suc (omega (arith, h.0.1))))

-- The scanner collects digits only.
scan_step_digits :
    (s : Scan) (c : ℕ) (t : Scan)
    → scan_step s c ≡ ok t
    → (t.digits ≡ s.digits) ⊎ ((t.digits ≡ s.digits ++ c ∷ []) × IsDigit c)
unfolding scan_step is_digit
scan_step_digits s c t e = ground arith

scan_step-IsDigit :
    (s : Scan) (c : ℕ) (t : Scan)
    → All IsDigit s.digits
    → scan_step s c ≡ ok t
    → All IsDigit t.digits
scan_step-IsDigit s c t h e = elim (scan_step_digits s c t e) [
  | inl same ↦ subst (All IsDigit) (sym same) h
  | inr (more, digit) ↦
      subst (All IsDigit) (sym more) (All-append IsDigit s.digits (c ∷ []) h (digit, tt))
]

scan_loop-IsDigit :
    (body : Bytes) (s t : Scan)
    → All IsDigit s.digits
    → scan_loop body s ≡ ok t
    → All IsDigit t.digits
unfolding scan_loop
scan_loop-IsDigit [] s t h e = subst (All IsDigit) (ground (arith, e)) h
scan_loop-IsDigit (c ∷ body) s t h e =
    let (u, step, rest) = bind_ok (scan_step s c) (scan_loop body) e in
    scan_loop-IsDigit body u t (scan_step-IsDigit s c u h step) rest

scan_body-IsDigit :
    (negative : Bool) (body : Bytes) (l : Literal)
    → scan_body negative body ≡ ok l
    → All IsDigit l.digits
unfolding scan_body
scan_body-IsDigit negative [] l e = cc
scan_body-IsDigit negative (c ∷ body) l e =
    let (s, loop, rest) = bind_ok (scan_loop (c ∷ body) scan_start) _ e in
    subst (All IsDigit) (ground arith) (scan_loop-IsDigit (c ∷ body) scan_start s tt loop)

scan_decimal_literal-IsDigit :
    (t : Bytes) (l : Literal) → scan_decimal_literal t ≡ ok l → All IsDigit l.digits
unfolding scan_decimal_literal
scan_decimal_literal-IsDigit [] l e = cc
scan_decimal_literal-IsDigit (c ∷ rest) l e = elim (Bool-cases (c == b'-')) [
  | inl minus ↦ scan_body-IsDigit true rest l (rw minus at e)
  | inr no_minus ↦ elim (Bool-cases (c == b'+')) [
    | inl plus ↦ scan_body-IsDigit false rest l (ground arith)
    | inr no_plus ↦ scan_body-IsDigit false (c ∷ rest) l (ground arith)
  ]
]

trim_zeros_cases :
    (c : ℕ) (ds : Bytes) → (trim_zeros (c ∷ ds) ≡ trim_zeros ds) ⊎ (trim_zeros (c ∷ ds) ≡ c ∷ ds)
unfolding trim_zeros
trim_zeros_cases c ds = ground arith

trim_zeros-IsDigit : (ds : Bytes) → All IsDigit ds → All IsDigit (trim_zeros ds)
trim_zeros-IsDigit [] h = unfold trim_zeros in tt
trim_zeros-IsDigit (c ∷ ds) h = elim (trim_zeros_cases c ds) [
  | inl dropped ↦ subst (All IsDigit) (sym dropped) (trim_zeros-IsDigit ds h.1)
  | inr kept ↦ subst (All IsDigit) (sym kept) h
]

-- The value of at most 38 digits has at most 38 digits.
length-value :
    (ds : Bytes)
    → All IsDigit ds
    → length ds ≤ max_decimal_precision
    → length (number_text (value_from 0 ds)) ≤ max_decimal_precision
length-value ds h n = length-number_text-le (value_from 0 ds) max_decimal_precision (omega arith) (
    lt_of_lt_of_le (value-lt-pow ds 0 0 h (omega arith))
      (pow-le-pow_right (omega arith) {j = max_decimal_precision} (omega arith)))

magnitude-sign :
    (negative : Bool) (n : ℕ) → magnitude (if negative then negate (pos n) else pos n) ≡ n
unfolding magnitude negate
magnitude-sign true zero = refl
magnitude-sign true (suc n) = refl
magnitude-sign false n = refl

-- The checks of `finishLiteral`, read from its result.
finish_literal_ok :
    (l : Literal) {d : Decimal}
    → finish_literal l ≡ ok d
    → (length (trim_zeros l.digits) ≤ max_decimal_precision)
      × (l.fraction_digits ≤ max_decimal_precision)
      × (d ≡ record {
        coefficient = some (
            if l.negative
            then negate (pos (value_from 0 (trim_zeros l.digits)))
            else pos (value_from 0 (trim_zeros l.digits)));
        scale = l.fraction_digits;
      })
unfolding finish_literal
finish_literal_ok l e = ground arith

new_decimal_of :
    (c : ℤ) (scale : ℕ)
    → scale ≤ max_decimal_precision
    → length (number_text (magnitude c)) ≤ max_decimal_precision
    → new_decimal (some c) scale ≡ ok (record { coefficient = some c; scale = scale })
unfolding new_decimal decimal_precision
new_decimal_of c scale h k = ground arith

parse_decimal_ok :
    (t : Bytes) {d : Decimal}
    → parse_decimal t ≡ ok d
    → (l : Literal) × (scan_decimal_literal t ≡ ok l) × (finish_literal l ≡ ok d)
unfolding parse_decimal
parse_decimal_ok t e = bind_ok (scan_decimal_literal t) finish_literal (ground (arith, e))

-- ParseDecimal returns only what NewDecimal would have made: a coefficient, and a precision and a
-- scale of at most 38. Its result is printed and read back without change.
pub parse_decimal-new_decimal :
    (t : Bytes) {d : Decimal}
    → parse_decimal t ≡ ok d
    → (c : ℤ) × (new_decimal (some c) d.scale ≡ ok d) × (parse_decimal (text d) ≡ ok d)
parse_decimal-new_decimal t {d} e =
    let (l, scanned, finished) = parse_decimal_ok t e in
    let (short, fits, made) = finish_literal_ok l finished in
    let n = value_from 0 (trim_zeros l.digits) in
    let c = if l.negative then negate (pos n) else pos n in
    let digits = trim_zeros-IsDigit l.digits (scan_decimal_literal-IsDigit t l scanned) in
    let again : new_decimal (some c) l.fraction_digits
        ≡ ok (record { coefficient = some c; scale = l.fraction_digits }) =
      new_decimal_of c l.fraction_digits fits
        (rw (magnitude-sign l.negative n) (length-value _ digits short)) in
    subst (λ x. (c : ℤ) × (new_decimal (some c) x.scale ≡ ok x) × (parse_decimal (text x) ≡ ok x))
      (sym made) (c, again, parse-text c l.fraction_digits again)
