-- ===== src/Conditional/Arithmetic.antt =====
-- conditional.go: `addInt64`, the 64-bit sum with its overflow flag.
use talon_sdk_go.Base.{◌+◌, ◌%◌, ◌^◌, ◌≡◌, ◌↔◌, Bool, false, ◌&&◌, ◌||◌, arith}
use talon_sdk_go.Base.Int.{ℤ, pos, negsuc, ltb_ℤ, ◌+ℤ◌}
use talon_sdk_go.Base.Words.{to_unsigned, from_unsigned, IsSigned}

-- The wrapped sum of two int64.
unfoldable pub wrapped_sum : ℤ → ℤ → ℤ
wrapped_sum left right =
    from_unsigned (2 ^ 63) ((to_unsigned (2 ^ 63) left + to_unsigned (2 ^ 63) right) % 2 ^ 64)

-- addInt64
unfoldable pub add_int64 : ℤ → ℤ → ℤ × Bool
unfolding wrapped_sum
add_int64 left right =
    let value = wrapped_sum left right in
    (value, (ltb_ℤ (pos 0) right && ltb_ℤ value left) || (ltb_ℤ right (pos 0) && ltb_ℤ left value))

-- The flag that addInt64 returns is false just when the sum of two int64 is an int64, and then the
-- value is that sum.
pub add_int64-exact :
    (left right : ℤ)
    → IsSigned (2 ^ 63) left
    → IsSigned (2 ^ 63) right
    → (((add_int64 left right).1 ≡ false) ↔ IsSigned (2 ^ 63) (left +ℤ right))
      × (IsSigned (2 ^ 63) (left +ℤ right) → (add_int64 left right).0 ≡ left +ℤ right)
unfolding add_int64 wrapped_sum from_unsigned to_unsigned ◌+ℤ◌
add_int64-exact (pos a) (pos b) h k = ground arith
add_int64-exact (pos a) (negsuc b) h k = ground arith
add_int64-exact (negsuc a) (pos b) h k = ground arith
add_int64-exact (negsuc a) (negsuc b) h k = ground arith
