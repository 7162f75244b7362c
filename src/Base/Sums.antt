-- ===== src/Base/Sums.antt =====
-- Sums of the first numbers of a sequence.
use cmsis_cpp.Base.{
  ℕ, zero, suc, ◌+◌, ◌*◌, ◌≤◌, ◌<◌, ◌≡◌, ◌≢◌, refl, inl, inr, arith, eq-cases, le-cases,
}

pub sum_below : (ℕ → ℕ) → ℕ → ℕ
sum_below f zero = 0
sum_below f (suc n) = sum_below f n + f n

sum_below-same :
    (f g : ℕ → ℕ) (n : ℕ) → ((i : ℕ) → i < n → g i ≡ f i) → sum_below g n ≡ sum_below f n
unfolding sum_below
sum_below-same f g zero h = refl
sum_below-same f g (suc n) h =
    omega (arith, sum_below-same f g n (λ i p. h i (omega arith)), h n (omega arith))

-- Two sequences that differ at one place.
pub sum_below-change :
    (f g : ℕ → ℕ) (n i : ℕ)
    → i < n
    → ((j : ℕ) → j ≢ i → g j ≡ f j)
    → sum_below g n + f i ≡ sum_below f n + g i
unfolding sum_below
sum_below-change f g zero i p h = absurd (omega arith)
sum_below-change f g (suc n) i p h = elim (eq-cases n i) [
  | inl e ↦ let same = sum_below-same f g n (λ j q. h j (λ k. omega arith)) in same_last same e
  | inr d ↦ omega (arith, sum_below-change f g n i (omega (arith, d)) h, h n d)
]
  where
    same_last :
        sum_below g n ≡ sum_below f n
        → n ≡ i
        → sum_below g n + g n + f i ≡ sum_below f n + f n + g i
    same_last s e = ground arith

pub sum_below-positive : (f : ℕ → ℕ) (n : ℕ) → 0 < sum_below f n → (i : ℕ) × (i < n) × (0 < f i)
unfolding sum_below
sum_below-positive f zero p = absurd (omega arith)
sum_below-positive f (suc n) p = elim (le-cases (f n) 0) [
  | inl z ↦ let (i, l, q) = sum_below-positive f n (omega arith) in (i, omega arith, q)
  | inr q ↦ (n, omega arith, q)
]

pub sum_below-le : (f : ℕ → ℕ) (c n : ℕ) → ((i : ℕ) → f i ≤ c) → sum_below f n ≤ c * n
unfolding sum_below
sum_below-le f c zero h = omega arith
sum_below-le f c (suc n) h = grind (arith, sum_below-le f c n h, h n)

pub sum_below-zero : (f : ℕ → ℕ) (n i : ℕ) → sum_below f n ≡ 0 → i < n → f i ≡ 0
unfolding sum_below
sum_below-zero f zero i h p = absurd (omega arith)
sum_below-zero f (suc n) i h p = elim (eq-cases i n) [
  | inl e ↦ ground arith
  | inr d ↦ sum_below-zero f n i (omega arith) (omega (arith, d))
]
