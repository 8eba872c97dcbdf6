-- ===== src/Radix/Largest.antt =====
-- `findLargestNum`: the largest element, or -1 where there is none.
use spsc.Prelude.{ℕ, ◌≤◌, ◌<◌, List, [], ◌∷◌, arith, All, ℤ, pos, negsuc, ltb_ℤ, if◌then◌else◌}
use spsc.Radix.{largest_from, find_largest_num}

-- the order of `largestNum` to the elements
abbrev pub AtMost : ℤ → ℕ → Type 0
AtMost (pos n) x = x ≤ n
AtMost (negsuc n) x = ⊥

abbrev pub Below : ℕ → ℤ → Type 0
Below m (pos n) = n < m
Below m (negsuc n) = Unit {0}

abbrev larger : ℤ → ℕ → ℤ
larger l x = if ltb_ℤ l (pos x) then pos x else l

AtMost-larger : (l : ℤ) (x y : ℕ) → AtMost l y → AtMost (larger l x) y
AtMost-larger (pos n) x y h = ground arith
AtMost-larger (negsuc n) x y h = elim h [ ]

AtMost-larger_self : (l : ℤ) (x : ℕ) → AtMost (larger l x) x
AtMost-larger_self (pos n) x = ground arith
AtMost-larger_self (negsuc n) x = ground arith

Below-larger : (m : ℕ) (l : ℤ) (x : ℕ) → Below m l → x < m → Below m (larger l x)
Below-larger m (pos n) x b h = ground arith
Below-larger m (negsuc n) x b h = ground arith

AtMost-largest_from : (xs : List ℕ) (l : ℤ) (y : ℕ) → AtMost l y → AtMost (largest_from l xs) y
unfolding largest_from
AtMost-largest_from [] l y h = h
AtMost-largest_from (x ∷ xs) l y h = AtMost-largest_from xs (larger l x) y (AtMost-larger l x y h)

largest_from-All : (xs : List ℕ) (l : ℤ) → All (AtMost (largest_from l xs)) xs
unfolding largest_from
largest_from-All [] l = tt
largest_from-All (x ∷ xs) l = (
  AtMost-largest_from xs (larger l x) x (AtMost-larger_self l x),
  largest_from-All xs (larger l x),
)

Below-largest_from :
    (m : ℕ) (xs : List ℕ) (l : ℤ) → Below m l → All (λ x. x < m) xs → Below m (largest_from l xs)
unfolding largest_from
Below-largest_from m [] l b h = b
Below-largest_from m (x ∷ xs) l b h =
    Below-largest_from m xs (larger l x) (Below-larger m l x b h.0) h.1

-- No element is above the result.
pub AtMost-find_largest_num : (xs : List ℕ) → All (AtMost (find_largest_num xs)) xs
unfolding find_largest_num
AtMost-find_largest_num xs = largest_from-All xs (negsuc 0)

-- A bound of the elements bounds the result.
pub Below-find_largest_num :
    (m : ℕ) (xs : List ℕ) → All (λ x. x < m) xs → Below m (find_largest_num xs)
unfolding find_largest_num
Below-find_largest_num m xs h = Below-largest_from m xs (negsuc 0) tt h
