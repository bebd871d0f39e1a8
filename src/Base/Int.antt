-- ===== src/Base/Int.antt =====
-- Signed integers over the native numbers: PostgreSQL's INT columns, Go's int32 and int.
use Prim.Native.Nat.{ℕ, suc, ◌+◌, ◌-◌, ◌%◌, ◌≤◌}
use mathlib.Core.Path.{◌≡◌}
use mathlib.Core.Bool.{Bool, true, ◌&&◌}
use native.Mathlib.Omega.{arith}
use proyecto_sd_reserva_de_h.Base.Tests.{ltb, leb, if◌then◌else◌}

-- `negsuc n` is -(n + 1).
pub data ℤ : Type 0 where
  pos : ℕ → ℤ
  negsuc : ℕ → ℤ

abbrev pub pos_part : ℤ → ℕ
pos_part (pos n) = n
pos_part (negsuc n) = 0

abbrev pub neg_part : ℤ → ℕ
neg_part (pos n) = 0
neg_part (negsuc n) = suc n

-- a - b, as an integer.
abbrev pub sub_ℕ : ℕ → ℕ → ℤ
sub_ℕ a b = if leb b a then pos (a - b) else negsuc (b - a - 1)

infixl 65 ◌+ℤ◌ ◌-ℤ◌
infix 50 ◌≤ℤ◌ ◌<ℤ◌
unfoldable pub ◌+ℤ◌ : ℤ → ℤ → ℤ
a +ℤ b = sub_ℕ (pos_part a + pos_part b) (neg_part a + neg_part b)

unfoldable pub ◌-ℤ◌ : ℤ → ℤ → ℤ
a -ℤ b = sub_ℕ (pos_part a + neg_part b) (neg_part a + pos_part b)

abbrev pub ◌≤ℤ◌ : ℤ → ℤ → Type 0
a ≤ℤ b = pos_part a + neg_part b ≤ pos_part b + neg_part a

abbrev pub ◌<ℤ◌ : ℤ → ℤ → Type 0
a <ℤ b = suc (pos_part a + neg_part b) ≤ pos_part b + neg_part a

abbrev pub ltb_ℤ : ℤ → ℤ → Bool
ltb_ℤ a b = ltb (pos_part a + neg_part b) (pos_part b + neg_part a)

abbrev pub leb_ℤ : ℤ → ℤ → Bool
leb_ℤ a b = leb (pos_part a + neg_part b) (pos_part b + neg_part a)

pub +ℤ_parts :
    (a b : ℤ)
    → pos_part (a +ℤ b) + neg_part a + neg_part b ≡ neg_part (a +ℤ b) + pos_part a + pos_part b
unfolding ◌+ℤ◌
+ℤ_parts a b = ground arith

pub -ℤ_parts :
    (a b : ℤ)
    → pos_part (a -ℤ b) + neg_part a + pos_part b ≡ neg_part (a -ℤ b) + pos_part a + neg_part b
unfolding ◌-ℤ◌
-ℤ_parts a b = ground arith

pub eq_of_parts : (a b : ℤ) → pos_part a + neg_part b ≡ pos_part b + neg_part a → a ≡ b
eq_of_parts a b h = ground arith

pub nonneg_is_pos : (a : ℤ) → pos 0 ≤ℤ a → a ≡ pos (pos_part a)
nonneg_is_pos a h = ground arith

pub -ℤ_+ℤ : (a b : ℤ) → a -ℤ b +ℤ b ≡ a
-ℤ_+ℤ a b =
    let p = +ℤ_parts (a -ℤ b) b in let q = -ℤ_parts a b in eq_of_parts (a -ℤ b +ℤ b) a (omega arith)

pub ruleset int_laws = (arith, +ℤ_parts, -ℤ_parts, eq_of_parts)

-- The values that a PostgreSQL INT, and a Go int32, holds.
abbrev pub in_int4 : ℤ → Bool
in_int4 a = leb_ℤ (negsuc 2147483647) a && leb_ℤ a (pos 2147483647)

-- The Go conversion `int32(x)` of a wider integer: the low 32 bits, read with their sign.
unfoldable pub to_int32 : ℤ → ℤ
to_int32 (pos n) = sub_ℕ ((n + 2147483648) % 4294967296) 2147483648
to_int32 (negsuc n) = sub_ℕ (4294967295 - (n + 2147483648) % 4294967296) 2147483648

pub to_int32_of_int4 : (a : ℤ) → in_int4 a ≡ true → to_int32 a ≡ a
unfolding to_int32
to_int32_of_int4 (pos n) h = ground arith
to_int32_of_int4 (negsuc n) h = ground arith
