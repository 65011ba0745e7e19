-- ===== src/Base/Integers.antt =====
-- Integers of which C takes one more or one less, far from the ends of `int`, and their bounds.
use Prim.Native.Nat.{ℕ, zero, suc, ◌≤◌}
use native.Mathlib.Omega.{arith}

pub data ℤ : Type 0 where
  pos : ℕ → ℤ
  negsuc : ℕ → ℤ

unfoldable pub increment : ℤ → ℤ
increment (pos n) = pos (suc n)
increment (negsuc zero) = pos 0
increment (negsuc (suc n)) = negsuc n

unfoldable pub decrement : ℤ → ℤ
decrement (pos zero) = negsuc 0
decrement (pos (suc n)) = pos n
decrement (negsuc n) = negsuc (suc n)

-- From `-lo` up to `hi`.
abbrev pub Within : ℕ → ℕ → ℤ → Type 0
Within lo hi (pos n) = n ≤ hi
Within lo hi (negsuc n) = suc n ≤ lo

pub Within-mono :
    (lo hi lo' hi' : ℕ) (v : ℤ) → lo ≤ lo' → hi ≤ hi' → Within lo hi v → Within lo' hi' v
Within-mono lo hi lo' hi' (pos n) l h w = omega (arith, h, w)
Within-mono lo hi lo' hi' (negsuc n) l h w = omega (arith, l, w)

pub increment-Within : (lo hi : ℕ) (v : ℤ) → Within lo hi v → Within lo (suc hi) (increment v)
unfolding increment
increment-Within lo hi (pos n) w = omega (arith, w)
increment-Within lo hi (negsuc zero) w = omega arith
increment-Within lo hi (negsuc (suc n)) w = omega (arith, w)

pub decrement-Within : (lo hi : ℕ) (v : ℤ) → Within lo hi v → Within (suc lo) hi (decrement v)
unfolding decrement
decrement-Within lo hi (pos zero) w = omega arith
decrement-Within lo hi (pos (suc n)) w = omega (arith, w)
decrement-Within lo hi (negsuc n) w = omega (arith, w)
