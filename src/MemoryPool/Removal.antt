-- ===== src/MemoryPool/Removal.antt =====
-- Lists of blocks from which one is taken out.
use cmsis_cpp.Base.{ℕ, ◌+◌, ◌≤◌, ◌<◌, ◌≡◌, refl, true, false, List, [], ◌∷◌, arith, length}
use cmsis_cpp.Base.Counts.{count}
use cmsis_cpp.MemoryPool.Contract.{contains, remove}

pub count-remove :
    (q p : ℕ) (xs : List ℕ)
    → contains p xs ≡ true
    → count q xs ≡ count q (p ∷ []) + count q (remove p xs)
count-remove q p [] h = absurd (cc)
count-remove q p (x ∷ xs) h = ground (arith, count-remove q p xs)

pub count_contains : (p : ℕ) (xs : List ℕ) → 0 < count p xs → contains p xs ≡ true
count_contains p [] h = absurd (omega arith)
count_contains p (x ∷ xs) h = ground (arith, count_contains p xs)

pub contains_count : (p : ℕ) (xs : List ℕ) → contains p xs ≡ true → 0 < count p xs
contains_count p [] h = absurd (cc)
contains_count p (x ∷ xs) h = ground (arith, contains_count p xs)

pub contains-remove :
    (q p : ℕ) (xs : List ℕ) → contains q xs ≡ false → contains q (remove p xs) ≡ false
contains-remove q p [] h = refl
contains-remove q p (x ∷ xs) h = ground (arith, contains-remove q p xs)

pub length-remove : (p : ℕ) (xs : List ℕ) → length (remove p xs) ≤ length xs
length-remove p [] = omega arith
length-remove p (x ∷ xs) = ground (arith, length-remove p xs)
