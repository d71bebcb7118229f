-- ===== src/Prelude/Int.antt =====
-- Integers over the native numbers, for a counter that can fall below zero.
use Prim.Native.Nat.{ℕ, suc, ◌+◌, ◌-◌, ◌≤◌}
use native.Mathlib.Omega.{arith}
use geo_device.Prelude.Tests.{leb, if◌then◌else◌}

-- `negsuc n` is -(n + 1).
pub data ℤ : Type 0 where
  pos : ℕ → ℤ
  negsuc : ℕ → ℤ

-- `max(i, 0)`
abbrev pub pos_part : ℤ → ℕ
pos_part (pos n) = n
pos_part (negsuc n) = 0

-- `i + n` and `i - n`
unfoldable pub add_nat : ℤ → ℕ → ℤ
add_nat (pos k) n = pos (k + n)
add_nat (negsuc k) n = if leb (suc k) n then pos (n - suc k) else negsuc (k - n)

unfoldable pub sub_nat : ℤ → ℕ → ℤ
sub_nat (pos k) n = if leb n k then pos (k - n) else negsuc (n - suc k)
sub_nat (negsuc k) n = negsuc (k + n)

-- `min(i, 0)`
abbrev pub neg_part : ℤ → ℤ
neg_part (pos n) = pos 0
neg_part (negsuc n) = negsuc n

-- `n <= i`
abbrev pub IsAtLeast : ℕ → ℤ → Type 0
IsAtLeast n (pos k) = n ≤ k
IsAtLeast n (negsuc k) = ⊥

pub add_nat-IsAtLeast : (n m : ℕ) (i : ℤ) → IsAtLeast n i → IsAtLeast (n + m) (add_nat i m)
unfolding add_nat
add_nat-IsAtLeast n m (pos k) h = omega arith
add_nat-IsAtLeast n m (negsuc k) h = absurd h

pub sub_nat-IsAtLeast : (n m : ℕ) (i : ℤ) → IsAtLeast (n + m) i → IsAtLeast n (sub_nat i m)
unfolding sub_nat
sub_nat-IsAtLeast n m (pos k) h = ground arith
sub_nat-IsAtLeast n m (negsuc k) h = absurd h

pub IsAtLeast-le : (n m : ℕ) (i : ℤ) → n ≤ m → IsAtLeast m i → IsAtLeast n i
IsAtLeast-le n m (pos k) e h = omega arith
IsAtLeast-le n m (negsuc k) e h = absurd h
