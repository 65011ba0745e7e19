-- ===== src/RangeSum/Gauss.antt =====
-- What `add_range` returns, and the closed form of it.
use git.Base.{
  ℕ, zero, suc, ◌+◌, ◌-◌, ◌*◌, ◌≤◌, ◌<◌, ◌≡◌, inl, inr, refl, ap, ◌∙◌, Bool-cases, true, false,
  if◌then◌else◌, leb, arith,
}
use native.Mathlib.Nat.{mul-suc, suc-mul}
use git.RangeSum.Program.{int_max, Outcome, returns, overflows, add_loop, add_range}

-- `low + (low + 1) + ...`, `n` numbers.
unfoldable range_sum : ℕ → ℕ → ℕ
range_sum zero low = 0
range_sum (suc n) low = low + range_sum n (suc low)

gauss : (n low : ℕ) → 2 * range_sum n low + n ≡ n * (low + low + n)
unfolding range_sum
gauss zero low = omega arith
gauss (suc n) low =
    let e : suc low + suc low + n ≡ suc (low + low + suc n) = omega arith in
    omega (
      arith,
      gauss n (suc low),
      ap (λ (t : ℕ). n * t) e,
      mul-suc n (low + low + suc n),
      suc-mul n (low + low + suc n),
    )

add_loop-step :
    (k i high sum : ℕ)
    → i ≤ high
    → suc i ≤ int_max
    → add_loop (suc k) i high sum
      ≡ (if leb (sum + i) int_max then add_loop k (suc i) high (sum + i) else overflows)
unfolding add_loop
add_loop-step k i high sum h m =
    let in_range : leb i high ≡ true = ground (arith, h) in
    let next : leb (suc i) int_max ≡ true = ground (arith, m) in rw (add_loop, in_range, next) refl

add_loop-end : (k i high sum : ℕ) → high < i → add_loop (suc k) i high sum ≡ returns sum
unfolding add_loop
add_loop-end k i high sum h =
    let past : leb i high ≡ false = ground (arith, h) in rw (add_loop, past) refl

abbrev bounded : ℕ → Outcome
bounded s = if leb s int_max then returns s else overflows

add_loop-range_sum :
    (n i high sum : ℕ)
    → i + n ≡ suc high
    → high < int_max
    → sum ≤ int_max
    → add_loop (suc n) i high sum ≡ bounded (sum + range_sum n i)
unfolding range_sum
add_loop-range_sum zero i high sum e h s =
    let fits : leb (sum + 0) int_max ≡ true = ground (arith, s) in
    add_loop-end 0 i high sum (omega (arith, e)) ∙ rw fits (ap returns (omega arith))
add_loop-range_sum (suc n) i high sum e h s =
    add_loop-step (suc n) i high sum (omega (arith, e)) (omega (arith, e, h))
    ∙ elim (Bool-cases (leb (sum + i) int_max)) [
      | inl fits ↦ rw fits (
          add_loop-range_sum n (suc i) high (sum + i) (omega (arith, e)) h (ground (arith, fits))
          ∙ ap bounded (omega arith))
      | inr over ↦
          let out : leb (sum + (i + range_sum n (suc i))) int_max ≡ false = ground (arith, over) in
          rw (over, out) refl
    ]

-- For arguments that are not negative, `low` no larger than `high` and `high` below the largest `int`,
-- add_range ends, and returns the sum of the range, which is half of the number of its terms by the sum
-- of its ends, if an `int` holds it, and overflows if not.
pub add_range-sum :
    (low high : ℕ)
    → low ≤ high
    → high < int_max
    → (s : ℕ) × (2 * s ≡ (suc high - low) * (low + high))
      × (add_range low high ≡ (if leb s int_max then returns s else overflows))
unfolding add_range
add_range-sum low high h m =
    let n = suc high - low in
    let ends : low + low + n ≡ suc (low + high) = omega (arith, h) in
    (
      range_sum n low,
      omega (arith, gauss n low, ap (λ (t : ℕ). n * t) ends, mul-suc n (low + high)),
      add_loop-range_sum n low high 0 (omega (arith, h)) m (omega arith) ∙ ap bounded (omega arith),
    )
