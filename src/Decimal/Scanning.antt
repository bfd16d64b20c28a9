-- ===== src/Decimal/Scanning.antt =====
-- The loop of `scanDecimalLiteral` over runs of digits, and the zeros that `TrimLeft` drops.
use talon_sdk_go.Base.{
  ℕ, zero, suc, ◌+◌, ◌≤◌, ◌≡◌, refl, sym, ap, ◌∙◌, Bool, true, [], ◌∷◌, ◌++◌, append_assoc,
  append-nil, Bytes, ok, All, if◌then◌else◌, length, replicate, arith,
}
use talon_sdk_go.Decimal.{
  Scan, Literal, scan_step, scan_loop, scan_start, scan_body, trim_zeros, finish_literal,
}
use talon_sdk_go.Decimal.Digits.{is_digit, IsDigit, value_from}

-- The state after a run of digits.
abbrev pub after_digits : Scan → Bytes → Scan
after_digits s ds = record {
  digits = s.digits ++ ds;
  seen_point = s.seen_point;
  fraction_digits = if s.seen_point then s.fraction_digits + length ds else s.fraction_digits;
}

pub scan_step_digit : (s : Scan) (c : ℕ) → IsDigit c → scan_step s c ≡ ok (after_digits s (c ∷ []))
unfolding scan_step is_digit
scan_step_digit s c h = ground arith

pub scan_loop_cons :
    (s t : Scan) (c : ℕ) (rest : Bytes)
    → scan_step s c ≡ ok t
    → scan_loop (c ∷ rest) s ≡ scan_loop rest t
unfolding scan_loop
scan_loop_cons s t c rest h = rw h

pub after_digits_twice :
    (s : Scan) (c : ℕ) (ds : Bytes)
    → after_digits (after_digits s (c ∷ [])) ds ≡ after_digits s (c ∷ ds)
after_digits_twice s c ds = ground (arith, append_assoc s.digits (c ∷ []) ds)

pub after_digits_nil : (s : Scan) → after_digits s [] ≡ s
after_digits_nil s = ground (arith, append-nil s.digits)

pub scan-digits :
    (ds rest : Bytes) (s : Scan)
    → All IsDigit ds
    → scan_loop (ds ++ rest) s ≡ scan_loop rest (after_digits s ds)
scan-digits [] rest s h = ap (scan_loop rest) (sym (after_digits_nil s))
scan-digits (c ∷ ds) rest s h =
    scan_loop_cons s _ c (ds ++ rest) (scan_step_digit s c h.0)
    ∙ (scan-digits ds rest _ h.1 ∙ ap (scan_loop rest) (after_digits_twice s c ds))

-- The point, met once.
pub scan_point :
    (ds : Bytes) (rest : Bytes)
    → scan_loop (b'.' ∷ rest) (after_digits scan_start ds)
      ≡ scan_loop rest (record { digits = ds; seen_point = true; fraction_digits = 0 })
unfolding scan_loop scan_step is_digit
scan_point ds rest = refl

pub scan_run : (ds : Bytes) (s : Scan) → All IsDigit ds → scan_loop ds s ≡ ok (after_digits s ds)
scan_run ds s h =
    ap (λ t. scan_loop t s) (sym (append-nil ds))
    ∙ (scan-digits ds [] s h ∙ unfold scan_loop in refl)

-- A run of digits with a point in it.
pub scan_both :
    (xs ys : Bytes)
    → All IsDigit xs
    → All IsDigit ys
    → scan_loop (xs ++ b'.' ∷ ys) scan_start
      ≡ ok (record { digits = xs ++ ys; seen_point = true; fraction_digits = length ys })
scan_both xs ys hx hy =
    scan-digits xs (b'.' ∷ ys) scan_start hx
    ∙ (scan_point xs ys
        ∙ (scan_run ys (record { digits = xs; seen_point = true; fraction_digits = 0 }) hy
            ∙ ground arith))

abbrev pub literal : Bool → Bytes → ℕ → Literal
literal negative digits fraction_digits = record {
  digits = digits;
  negative = negative;
  fraction_digits = fraction_digits;
}

pub scan_body_of :
    (negative : Bool) (body : Bytes) (s : Scan)
    → 1 ≤ length body
    → 1 ≤ length s.digits
    → scan_loop body scan_start ≡ ok s
    → scan_body negative body ≡ ok (literal negative s.digits s.fraction_digits)
unfolding scan_body
scan_body_of negative [] s h n e = absurd (omega arith)
scan_body_of negative (c ∷ body) s h n e = rw e (ground arith)

pub length-trim_zeros : (ds : Bytes) → length (trim_zeros ds) ≤ length ds
unfolding trim_zeros
length-trim_zeros [] = omega arith
length-trim_zeros (c ∷ ds) = ground (arith, length-trim_zeros ds)

pub value-trim_zeros : (ds : Bytes) → value_from 0 (trim_zeros ds) ≡ value_from 0 ds
unfolding trim_zeros value_from
value-trim_zeros [] = refl
value-trim_zeros (c ∷ ds) = ground (arith, value-trim_zeros ds)

pub trim_zeros-replicate :
    (k : ℕ) (ds : Bytes) → trim_zeros (replicate k b'0' ++ ds) ≡ trim_zeros ds
unfolding trim_zeros
trim_zeros-replicate zero ds = refl
trim_zeros-replicate (suc k) ds = trim_zeros-replicate k ds

pub finish-replicate :
    (negative : Bool) (k : ℕ) (ds : Bytes) (f : ℕ)
    → finish_literal (literal negative (replicate k b'0' ++ ds) f)
      ≡ finish_literal (literal negative ds f)
unfolding finish_literal
finish-replicate negative k ds f = rw (trim_zeros-replicate k ds)
