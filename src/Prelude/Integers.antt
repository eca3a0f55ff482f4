-- ===== src/Prelude/Integers.antt =====
-- Go's signed 64-bit integers, as integers with the wrap-around written out.
use Prim.Native.Nat.{ℕ, zero, suc, ◌+◌, ◌-◌, ◌*◌, ◌/◌, ◌%◌, ◌^◌, ◌<◌}
use mathlib.Core.Path.{◌≡◌}
use mathlib.Core.Bool.{Bool}
use native.Mathlib.Omega.{arith}
use rclone_sync_hub_go_backe.Prelude.Tests.{ltb, leb, if◌then◌else◌}

-- `negsuc n` is -(n + 1).
pub data ℤ : Type 0 where
  pos : ℕ → ℤ
  negsuc : ℕ → ℤ

abbrev pub pos_part : ℤ → ℕ
pos_part (pos n) = n
pos_part (negsuc n) = 0

abbrev pub neg_part : ℤ → ℕ
neg_part (pos n) = 0
neg_part (negsuc n) = suc n

abbrev pub ltb_ℤ : ℤ → ℤ → Bool
ltb_ℤ a b = ltb (pos_part a + neg_part b) (pos_part b + neg_part a)

abbrev pub leb_ℤ : ℤ → ℤ → Bool
leb_ℤ a b = leb (pos_part a + neg_part b) (pos_part b + neg_part a)

-- The wrap-around to 64 bits.
unfoldable pub i64 : ℤ → ℤ
i64 (pos n) = let m = n % 2 ^ 64 in if ltb m (2 ^ 63) then pos m else negsuc (2 ^ 64 - 1 - m)
i64 (negsuc n) = let m = n % 2 ^ 64 in if ltb m (2 ^ 63) then negsuc m else pos (2 ^ 64 - 1 - m)

-- `a * 2`
abbrev pub double : ℤ → ℤ
double (pos n) = i64 (pos (n * 2))
double (negsuc n) = i64 (negsuc (n * 2 + 1))

-- `a / n` for a positive `n` rounds towards zero.
abbrev pub quotient : ℤ → ℕ → ℤ
quotient (pos a) n = pos (a / n)
quotient (negsuc a) n = elim (suc a / n) [ zero ↦ pos 0 | suc q ↦ negsuc q ]

pub i64_pos : (n : ℕ) → n < 2 ^ 63 → i64 (pos n) ≡ pos n
unfolding i64
i64_pos n h = ground arith

pub double_pos : (n : ℕ) → n * 2 < 2 ^ 63 → double (pos n) ≡ pos (n * 2)
unfolding i64
double_pos n h = ground arith
