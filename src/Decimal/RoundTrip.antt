-- ===== src/Decimal/RoundTrip.antt =====
-- internal/serverprotocol/sql.go: `ParseDecimal` on what `Text` writes.
use talon_sdk_go.Base.{
  ℕ, zero, suc, ◌-◌, ◌≤◌, ◌<◌, ◌≡◌, ◌≢◌, refl, sym, ap, subst, ◌∙◌, Bool, true, false, some, [],
  ◌∷◌, ◌++◌, Bytes, Result, ok, ◌>>=◌, All, All-append, leb, ◌==◌, length, length-append, take,
  drop, replicate, arith, Bool-cases, leb→le, inl, inr, bytes_equal_refl, take-append-drop,
  length-drop, length-replicate,
}
use talon_sdk_go.Base.Int.{ℤ}
use talon_sdk_go.Base.Text.{trim_space-plain, IsPlain}
use talon_sdk_go.Decimal.{
  Decimal, Scan, scan_loop, scan_start, scan_body, scan_decimal_literal, finish_literal,
  parse_decimal, point_text, sign_text, text, new_decimal, decimal_precision, max_decimal_precision,
}
use talon_sdk_go.Decimal.Scanning.{
  after_digits, scan_run, scan_both, literal, scan_body_of, length-trim_zeros, value-trim_zeros,
  finish-replicate,
}
use talon_sdk_go.Decimal.Digits.{
  IsDigit, number_text, magnitude, is_negative, value-number_text, number_text-IsDigit,
  length-number_text, negate-magnitude, pos-magnitude,
}

take-IsDigit : (n : ℕ) (ds : Bytes) → All IsDigit ds → All IsDigit (take n ds)
take-IsDigit zero ds h = tt
take-IsDigit (suc n) [] h = tt
take-IsDigit (suc n) (c ∷ ds) h = (h.0, take-IsDigit n ds h.1)

drop-IsDigit : (n : ℕ) (ds : Bytes) → All IsDigit ds → All IsDigit (drop n ds)
drop-IsDigit zero ds h = h
drop-IsDigit (suc n) [] h = tt
drop-IsDigit (suc n) (c ∷ ds) h = drop-IsDigit n ds h.1

replicate-IsDigit : (k : ℕ) → All IsDigit (replicate k b'0')
replicate-IsDigit zero = tt
replicate-IsDigit (suc k) = (omega arith, replicate-IsDigit k)

-- The three shapes of `Text` behind the sign.
point_text_whole : (ds : Bytes) (f : ℕ) → f ≡ 0 → point_text ds f ≡ ds
unfolding point_text
point_text_whole ds f h = ground arith

point_text_small :
    (ds : Bytes) (f : ℕ)
    → f ≢ 0
    → length ds ≤ f
    → point_text ds f ≡ (b'0' ∷ []) ++ b'.' ∷ (replicate (f - length ds) b'0' ++ ds)
unfolding point_text
point_text_small ds f h k = ground arith

point_text_split :
    (ds : Bytes) (f : ℕ)
    → f ≢ 0
    → f < length ds
    → point_text ds f ≡ take (length ds - f) ds ++ b'.' ∷ drop (length ds - f) ds
unfolding point_text
point_text_split ds f h k = ground arith

read : Bool → Bytes → Result Decimal
read negative body = scan_body negative body >>= finish_literal

-- A body that is scanned to `s` reads as the literal with those digits.
read_scanned :
    (negative : Bool) (body : Bytes) (s : Scan)
    → 1 ≤ length body
    → 1 ≤ length s.digits
    → scan_loop body scan_start ≡ ok s
    → read negative body ≡ finish_literal (literal negative s.digits s.fraction_digits)
unfolding read
read_scanned negative body s h n e =
    ap (λ r. r >>= finish_literal) (scan_body_of negative body s h n e)

module _ (negative : Bool) (ds : Bytes) (f : ℕ) (h : All IsDigit ds) (n : 1 ≤ length ds) where
  read_whole : f ≡ 0 → read negative (point_text ds f) ≡ finish_literal (literal negative ds f)
  read_whole z =
      ap (read negative) (point_text_whole ds f z)
      ∙ (read_scanned negative ds (after_digits scan_start ds) n n (scan_run ds scan_start h)
          ∙ ap (λ k. finish_literal (literal negative ds k)) (sym z))

  length-padded : length ds ≤ f → length (replicate (f - length ds) b'0' ++ ds) ≡ f
  length-padded small = omega (
    arith,
    length-append (replicate (f - length ds) b'0') ds,
    length-replicate {A = ℕ} (f - length ds) b'0',
  )

  read_small :
      f ≢ 0
      → length ds ≤ f
      → read negative (point_text ds f) ≡ finish_literal (literal negative ds f)
  read_small z small =
      ap (read negative) (point_text_small ds f z small)
      ∙ (read_scanned negative _ _ (omega arith) (omega arith) (
            scan_both (b'0' ∷ []) _ ((omega arith, omega arith), tt)
              (All-append IsDigit _ ds (replicate-IsDigit (f - length ds)) h))
          ∙ (ap
                (λ m.
                  finish_literal
                    (literal negative (b'0' ∷ (replicate (f - length ds) b'0' ++ ds)) m))
                (length-padded small)
              ∙ finish-replicate negative (suc (f - length ds)) ds f))

  read_split :
      f ≢ 0
      → f < length ds
      → read negative (point_text ds f) ≡ finish_literal (literal negative ds f)
  read_split z large =
      let k = length ds - f in
      ap (read negative) (point_text_split ds f z large)
      ∙ (read_scanned negative _ _ (omega (arith, length-append (take k ds) (b'.' ∷ drop k ds)))
            (omega (arith, ap length (take-append-drop k ds)))
            (scan_both (take k ds) (drop k ds) (take-IsDigit k ds h) (drop-IsDigit k ds h))
          ∙ (ap (λ t. finish_literal (literal negative t (length (drop k ds))))
                (take-append-drop k ds)
              ∙ ap (λ m. finish_literal (literal negative ds m)) (omega (arith, length-drop k ds))))

  -- What the printer writes behind the sign reads as the digits that it was given.
  read-point_text : read negative (point_text ds f) ≡ finish_literal (literal negative ds f)
  read-point_text = elim (Bool-cases (f == 0)) [
    | inl whole ↦ read_whole (ground arith)
    | inr point ↦ elim (Bool-cases (leb (length ds) f)) [
      | inl small ↦ read_small (ground arith) (leb→le (length ds) f small)
      | inr split ↦ read_split (ground arith) (ground arith)
    ]
  ]

abbrev IsBody : ℕ → Type 0
IsBody c = (b'.' ≤ c) × (c ≤ b'9')

All-weaken : (P Q : ℕ → Type 0) → ((c : ℕ) → P c → Q c) → (ds : Bytes) → All P ds → All Q ds
All-weaken P Q w [] h = tt
All-weaken P Q w (c ∷ ds) h = (w c h.0, All-weaken P Q w ds h.1)

digits-IsBody : (ds : Bytes) → All IsDigit ds → All IsBody ds
digits-IsBody = All-weaken IsDigit IsBody (λ c h. omega arith)

point_text-IsBody : (ds : Bytes) (f : ℕ) → All IsDigit ds → All IsBody (point_text ds f)
point_text-IsBody ds f h = elim (Bool-cases (f == 0)) [
  | inl whole ↦ subst (All IsBody) (sym (point_text_whole ds f (ground arith))) (digits-IsBody ds h)
  | inr point ↦ elim (Bool-cases (leb (length ds) f)) [
    | inl small ↦
        subst (All IsBody) (sym (point_text_small ds f (ground arith) (leb→le (length ds) f small)))
          (
            omega arith,
            (
              omega arith,
              digits-IsBody _ (All-append IsDigit _ ds (replicate-IsDigit (f - length ds)) h),
            ),
          )
    | inr split ↦ subst (All IsBody) (sym (point_text_split ds f (ground arith) (ground arith))) (
        All-append IsBody (take (length ds - f) ds) (b'.' ∷ drop (length ds - f) ds)
          (digits-IsBody _ (take-IsDigit _ ds h))
          (omega arith, digits-IsBody _ (drop-IsDigit _ ds h)))
  ]
]

scan_unsigned :
    (body : Bytes)
    → All IsBody body
    → 1 ≤ length body
    → scan_decimal_literal body ≡ scan_body false body
unfolding scan_decimal_literal
scan_unsigned [] h n = absurd (omega arith)
scan_unsigned (c ∷ body) h n = ground arith

scan-sign_text :
    (negative : Bool) (body : Bytes)
    → All IsBody body
    → 1 ≤ length body
    → (scan_decimal_literal (sign_text negative ++ body) >>= finish_literal) ≡ read negative body
unfolding read
scan-sign_text true body h n = unfold scan_decimal_literal in refl
scan-sign_text false body h n = ap (λ r. r >>= finish_literal) (scan_unsigned body h n)

signed-IsPlain :
    (negative : Bool) (body : Bytes) → All IsBody body → All IsPlain (sign_text negative ++ body)
signed-IsPlain true body h = (omega arith, All-weaken IsBody IsPlain (λ c k. omega arith) body h)
signed-IsPlain false body h = All-weaken IsBody IsPlain (λ c k. omega arith) body h

-- On plain bytes `ParseDecimal` goes on to the scanner.
parse_plain :
    (t : Bytes)
    → All IsPlain t
    → 1 ≤ length t
    → parse_decimal t ≡ (scan_decimal_literal t >>= finish_literal)
unfolding parse_decimal
parse_plain t h n = rw (trim_space-plain t h) (ground (arith, bytes_equal_refl t))

length-point_text : (ds : Bytes) (f : ℕ) → 1 ≤ length ds → 1 ≤ length (point_text ds f)
length-point_text ds f n = elim (Bool-cases (f == 0)) [
  | inl whole ↦ omega (arith, ap length (point_text_whole ds f (ground arith)))
  | inr point ↦ elim (Bool-cases (leb (length ds) f)) [
    | inl small ↦
        omega (arith, ap length (point_text_small ds f (ground arith) (leb→le (length ds) f small)))
    | inr split ↦ omega (
      arith,
      ap length (point_text_split ds f (ground arith) (ground arith)),
      length-append (take (length ds - f) ds) (b'.' ∷ drop (length ds - f) ds),
    )
  ]
]

parse_signed :
    (negative : Bool) (ds : Bytes) (f : ℕ)
    → All IsDigit ds
    → 1 ≤ length ds
    → parse_decimal (sign_text negative ++ point_text ds f) ≡ finish_literal (literal negative ds f)
parse_signed negative ds f h n =
    let body = point_text ds f in
    let plain = point_text-IsBody ds f h in
    let m = length-point_text ds f n in
    parse_plain (sign_text negative ++ body) (signed-IsPlain negative body plain)
      (omega (arith, length-append (sign_text negative) body))
    ∙ (scan-sign_text negative body plain m ∙ read-point_text negative ds f h n)

-- The digits of a magnitude with its sign are the integer again.
finish-number_text :
    (c : ℤ) (f : ℕ)
    → f ≤ max_decimal_precision
    → length (number_text (magnitude c)) ≤ max_decimal_precision
    → finish_literal (literal (is_negative c) (number_text (magnitude c)) f)
      ≡ ok (record { coefficient = some c; scale = f })
unfolding finish_literal
finish-number_text c f hf hp = ground (
  arith,
  length-trim_zeros (number_text (magnitude c)),
  value-trim_zeros (number_text (magnitude c)),
  value-number_text (magnitude c),
  negate-magnitude c,
  pos-magnitude c,
)

length-zero_text : length (number_text 0) ≡ 1
unfolding number_text
length-zero_text = refl

-- What NewDecimal checks, and what it returns.
new_decimal_ok :
    (c : ℤ) (scale : ℕ) {d : Decimal}
    → new_decimal (some c) scale ≡ ok d
    → (scale ≤ max_decimal_precision)
      × (length (number_text (magnitude c)) ≤ max_decimal_precision)
      × (record { coefficient = some c; scale = scale } ≡ d)
unfolding new_decimal decimal_precision
new_decimal_ok c scale h = ground (arith, length-zero_text)

text-eq-signed :
    (c : ℤ) (scale : ℕ)
    → parse_decimal (text (record { coefficient = some c; scale = scale }))
      ≡ parse_decimal (sign_text (is_negative c) ++ point_text (number_text (magnitude c)) scale)
unfolding text
text-eq-signed c scale = refl

-- Text of every decimal that NewDecimal accepts is read back by ParseDecimal as that decimal.
pub parse-text :
    (c : ℤ) (scale : ℕ) {d : Decimal}
    → new_decimal (some c) scale ≡ ok d
    → parse_decimal (text d) ≡ ok d
parse-text c scale {d} h =
    let (fits, short, e) = new_decimal_ok c scale h in
    subst (λ t. parse_decimal (text t) ≡ ok t) e
      (text-eq-signed c scale
        ∙ (parse_signed (is_negative c) (number_text (magnitude c)) scale
              (number_text-IsDigit (magnitude c)) (length-number_text (magnitude c))
            ∙ finish-number_text c scale fits short))
