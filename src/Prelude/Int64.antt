-- ===== src/Prelude/Int64.antt =====
-- Go's int64 over the integers: sums and differences wrap around at 2 ^ 63.
use realtime_delivery_micros.Prelude.{◌+◌, ◌-◌, ◌%◌, ◌^◌, ◌≤◌, ◌<◌, ◌≡◌, arith}
use realtime_delivery_micros.Prelude.Int.{ℤ, pos_part, neg_part, sub_ℕ, ◌+ℤ◌, ◌-ℤ◌}

-- The integer in [-2^63, 2^63) that has the same low 64 bits.
unfoldable pub wrap64 : ℤ → ℤ
wrap64 a = sub_ℕ ((pos_part a + 2 ^ 63 + (2 ^ 64 - neg_part a % 2 ^ 64)) % 2 ^ 64) (2 ^ 63)

unfoldable pub add64 : ℤ → ℤ → ℤ
add64 a b = wrap64 (a +ℤ b)

unfoldable pub sub64 : ℤ → ℤ → ℤ
sub64 a b = wrap64 (a -ℤ b)

abbrev pub IsInt64 : ℤ → Type 0
IsInt64 a = (pos_part a < 2 ^ 63) × (neg_part a ≤ 2 ^ 63)

pub wrap64_self : (a : ℤ) → IsInt64 a → wrap64 a ≡ a
unfolding wrap64
wrap64_self a h = ground arith

pub wrap64-IsInt64 : (a : ℤ) → IsInt64 (wrap64 a)
unfolding wrap64
wrap64-IsInt64 a = ground arith

pub add64-IsInt64 : (a b : ℤ) → IsInt64 (add64 a b)
unfolding add64
add64-IsInt64 a b = wrap64-IsInt64 (a +ℤ b)

-- Neither negative nor above the largest int64.
abbrev pub IsAmount : ℤ → Type 0
IsAmount a = (neg_part a ≡ 0) × (pos_part a < 2 ^ 63)

-- On amounts the sum and the difference are exact while they stay in range.
pub add64_parts :
    (a b : ℤ)
    → IsAmount a
    → IsAmount b
    → pos_part a + pos_part b < 2 ^ 63
    → (neg_part (add64 a b) ≡ 0) × (pos_part (add64 a b) ≡ pos_part a + pos_part b)
unfolding add64 wrap64 ◌+ℤ◌
add64_parts a b ha hb h = ground arith

pub sub64_parts :
    (a b : ℤ)
    → IsAmount a
    → IsAmount b
    → pos_part b ≤ pos_part a
    → (neg_part (sub64 a b) ≡ 0) × (pos_part (sub64 a b) ≡ pos_part a - pos_part b)
unfolding sub64 wrap64 ◌-ℤ◌
sub64_parts a b ha hb h = ground arith

pub sub64_negative :
    (a b : ℤ)
    → IsAmount a
    → IsAmount b
    → pos_part a < pos_part b
    → (pos_part (sub64 a b) ≡ 0) × (neg_part (sub64 a b) ≡ pos_part b - pos_part a)
unfolding sub64 wrap64 ◌-ℤ◌
sub64_negative a b ha hb h = ground arith
