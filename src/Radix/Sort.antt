-- ===== src/Radix/Sort.antt =====
-- `radix_sort`: the rounds put the array in order of more and more digits, until `INT_MAX` stops
-- `significantDigit` or no digit is left.
use mathlib.Core.List.{Perm}
use mathlib.Core.List.Perm
use native.Mathlib.Nat.{div-div-eq-div-mul, div-add-mod', div-eq_of_lt, mod-lt, mod-eq_of_lt}
use spsc.Prelude.{
  ℕ, zero, suc, ◌+◌, ◌*◌, ◌/◌, ◌%◌, ◌^◌, ◌≤◌, ◌<◌, ◌≡◌, refl, ap, sym, inl, inr, true, false, List,
  [], ◌∷◌, arith, length, All, IsSorted, IsSortedBy, IsSortedBy-map, IsSortedBy-of, get_or,
  All_get_or, length-perm, ℤ, pos, negsuc, Bool-cases, ltb,
}
use spsc.Radix.{
  digit, find_largest_num, copy, place_all, Outcome, sorted, int_overflow, digits_left, radix_loop,
  radix_sort, int_max,
}
use spsc.Radix.Collect.{collect-perm, collect-All, collect-IsSortedBy}
use spsc.Radix.Largest.{AtMost, Below, AtMost-find_largest_num, Below-find_largest_num}
use spsc.Radix.Places.{place_all_lem}

-- `copy` of an array of the same length
copy_lem : (xs ys : List ℕ) → length xs ≡ length ys → copy xs ys ≡ ys
unfolding copy
copy_lem [] [] e = refl
copy_lem [] (y ∷ ys) e = absurd (omega arith)
copy_lem (x ∷ xs) [] e = absurd (omega arith)
copy_lem (x ∷ xs) (y ∷ ys) e = ap (◌∷◌ y) (copy_lem xs ys (omega arith))

-- the low digits of a number, one more at a time
mod_split : (x d : ℕ) → 0 < d → x % (d * 10) ≡ digit d x * d + x % d
mod_split x d h = omega (
  arith,
  div-add-mod' x d,
  div-add-mod' x (d * 10),
  ap (λ t. t * (d * 10)) (div-div-eq-div-mul x d 10),
  ap (λ t. t * d) (div-add-mod' (x / d) 10),
)

digit_first : (d : ℕ) → 0 < d → (x y : ℕ) → digit d x < digit d y → x % (d * 10) ≤ y % (d * 10)
digit_first d h x y lt =
    let room : (digit d x + 1) * d ≤ digit d y * d = grind arith in
    omega (arith, mod_split x d h, mod_split y d h, room, mod-lt x {m = d} h)

rest_second :
    (d : ℕ)
    → 0 < d
    → (x y : ℕ) → digit d x ≡ digit d y
    → x % d ≤ y % d
    → x % (d * 10) ≤ y % (d * 10)
rest_second d h x y e le = omega (arith, mod_split x d h, mod_split y d h, ap (λ t. t * d) e)

-- One round, from an array in order of its digits below `d`: the array in order of one digit more,
-- with the same elements.
place_all-digit :
    (d : ℕ) (array semi : List ℕ)
    → 0 < d
    → length semi ≡ length array
    → IsSortedBy (λ x. x % d) array
    → let next = place_all 10 (digit d) array semi in
      IsSortedBy (λ x. x % (d * 10)) next × Perm next array
place_all-digit d array semi h e s =
    rw (place_all_lem (digit d) 10 (λ x. omega arith) array semi e) (
      collect-IsSortedBy (digit d) (λ x. x % d) (λ x. x % (d * 10)) (digit_first d h)
          (rest_second d h) 10 array s,
      collect-perm (digit d) 10 array (λ x. omega arith),
    )

-- `significantDigit` after `k` more rounds
abbrev scale : ℕ → ℕ → ℕ
scale zero d = d
scale (suc k) d = scale k (d * 10)

le-scale : (k d : ℕ) → d ≤ scale k d
le-scale zero d = omega arith
le-scale (suc k) d = omega (arith, le-scale k (d * 10))

-- the state of the loop: in order of the digits below `d`, and not above `largest`
record Rounds (largest : ℤ) (d : ℕ) (array semi : List ℕ) : Type 0 where
  positive : 0 < d
  scratch : length semi ≡ length array
  ordered : IsSortedBy (λ x. x % d) array
  bounded : All (AtMost largest) array

Rounds-step :
    (l : ℤ) (d : ℕ) (array semi : List ℕ)
    → Rounds l d array semi
    → let next = place_all 10 (digit d) array semi in
      Rounds l (d * 10) (copy array next) next × Perm (copy array next) array
Rounds-step l d array semi r =
    let next = place_all 10 (digit d) array semi in
    let (ordered, same) = place_all-digit d array semi r.positive r.scratch r.ordered in
    let size = length-perm next array same in
    rw (copy_lem array next (sym size)) (
      record {
        positive = omega (arith, r.positive);
        scratch = refl;
        ordered = ordered;
        bounded =
            rw (place_all_lem (digit d) 10 (λ x. omega arith) array semi r.scratch)
              (collect-All (digit d) (AtMost l) 10 array r.bounded);
      },
      same,
    )

-- where no digit is left every number is its own remainder
mod_below : (l : ℤ) (d x : ℕ) → 0 < d → digits_left l d ≡ false → AtMost l x → x % d ≡ x
mod_below (negsuc n) d x h e le = elim le [ ]
mod_below (pos n) d x h e le =
    let none_left : n / d ≡ 0 = ground arith in
    mod-eq_of_lt {n = x} {m = d}
      (omega (arith, div-add-mod' n d, mod-lt n {m = d} h, ap (λ t. t * d) none_left))

below_d_order :
    (l : ℤ) (d x y : ℕ)
    → 0 < d
    → digits_left l d ≡ false
    → AtMost l x
    → AtMost l y
    → x % d ≤ y % d
    → x ≤ y
below_d_order l d x y h e hx hy le = omega (arith, mod_below l d x h e hx, mod_below l d y h e hy)

-- no digit is left: every element is below `d`, and the array is in order
Rounds-done :
    (l : ℤ) (d : ℕ) (array semi : List ℕ)
    → Rounds l d array semi
    → digits_left l d ≡ false
    → IsSorted array
Rounds-done l d array semi r e =
    IsSortedBy-map (AtMost l) (λ x. x % d) (λ x. x) array
      (λ x y hx hy le. below_d_order l d x y r.positive e hx hy le) r.bounded r.ordered

-- the result of a sort that ends
abbrev Sorts : List ℕ → Outcome → Type 0
Sorts array out = (result : List ℕ) × (out ≡ sorted result) × IsSorted result × Perm result array

no_digits_left : (l : ℤ) (d : ℕ) → Below d l → digits_left l d ≡ false
no_digits_left (negsuc n) d b = refl
no_digits_left (pos n) d b =
    let quotient : n / d ≡ 0 = div-eq_of_lt {n = n} {m = d} b in ground (arith, quotient)

radix_loop_stop :
    (fuel : ℕ) (l : ℤ) (d : ℕ) (array semi : List ℕ)
    → Rounds l d array semi
    → digits_left l d ≡ false
    → Sorts array (radix_loop (suc fuel) l d array semi)
unfolding radix_loop
radix_loop_stop fuel l d array semi r e =
    rw e (array, refl, Rounds-done l d array semi r e, Perm.rfl)

radix_loop_more :
    (fuel : ℕ) (l : ℤ) (d : ℕ) (array semi : List ℕ)
    → Rounds l d array semi
    → digits_left l d ≡ true
    → ltb int_max (d * 10) ≡ false
    → let next = place_all 10 (digit d) array semi in
      Sorts (copy array next) (radix_loop fuel l (d * 10) (copy array next) next)
      → Sorts array (radix_loop (suc fuel) l d array semi)
unfolding radix_loop
radix_loop_more fuel l d array semi r more fits (result, out, ordered, same) =
    rw (more, fits) (result, out, ordered, Perm.trans same (Rounds-step l d array semi r).1)

radix_loop-Sorts :
    (k fuel : ℕ) (l : ℤ) (d : ℕ) (array semi : List ℕ)
    → k < fuel
    → scale k d ≡ 10 ^ 9
    → Below (10 ^ 9) l
    → Rounds l d array semi
    → Sorts array (radix_loop fuel l d array semi)
radix_loop-Sorts k zero l d array semi lt e b r = elim lt [ ]
radix_loop-Sorts zero (suc fuel) l d array semi lt e b r =
    radix_loop_stop fuel l d array semi r (no_digits_left l d (rw e b))
radix_loop-Sorts (suc k) (suc fuel) l d array semi lt e b r = elim (Bool-cases (digits_left l d)) [
  | inr no_more ↦ radix_loop_stop fuel l d array semi r no_more
  | inl more ↦
      let next = place_all 10 (digit d) array semi in
      radix_loop_more fuel l d array semi r more (ground (arith, le-scale k (d * 10))) (
        radix_loop-Sorts k fuel l (d * 10) (copy array next) next (omega arith) e b
          (Rounds-step l d array semi r).0)
]

-- On an array of numbers below 10^9, whatever the scratch array of the same length holds at the
-- start, `radix_sort` ends without overflow, and leaves the array in ascending order with the
-- elements that it had.
pub radix_sort-Sorts :
    (array semi_sorted : List ℕ)
    → length semi_sorted ≡ length array
    → All (λ x. x < 10 ^ 9) array
    → (result : List ℕ) × (radix_sort array semi_sorted ≡ sorted result)
      × IsSorted result
      × Perm result array
unfolding radix_sort
radix_sort-Sorts array semi e h =
    radix_loop-Sorts 9 11 (find_largest_num array) 1 array semi (omega arith) refl
      (Below-find_largest_num (10 ^ 9) array h)
      (record {
        positive = omega arith;
        scratch = e;
        ordered = IsSortedBy-of (λ x. x % 1) array (λ x y. omega arith);
        bounded = AtMost-find_largest_num array;
      })

quotient_pos : (n d : ℕ) → 0 < d → d ≤ n → 0 < n / d
quotient_pos n d p le = grind (arith, div-add-mod' n d, mod-lt n {m = d} p)

radix_loop_overflow :
    (k fuel n d : ℕ) (array semi : List ℕ)
    → k < fuel
    → scale k d ≡ 10 ^ 9
    → 10 ^ 9 ≤ n
    → 0 < d
    → radix_loop fuel (pos n) d array semi ≡ int_overflow
unfolding radix_loop
radix_loop_overflow k zero n d array semi lt e h p = elim lt [ ]
radix_loop_overflow zero (suc fuel) n d array semi lt e h p =
    let more : ltb 0 (n / d) ≡ true = ground (arith, quotient_pos n d p (omega arith)) in
    let stop : ltb int_max (d * 10) ≡ true = ground arith in rw (more, stop)
radix_loop_overflow (suc k) (suc fuel) n d array semi lt e h p =
    let next = place_all 10 (digit d) array semi in
    let more : ltb 0 (n / d) ≡ true =
      ground (arith, quotient_pos n d p (omega (arith, le-scale k (d * 10)))) in
    rw
      (
        more,
        radix_loop_overflow k fuel n (d * 10) (copy array next) next (omega arith) e h
            (omega arith),
      )
      (ground arith)

large_overflow :
    (l : ℤ) (array semi : List ℕ) (x : ℕ)
    → 10 ^ 9 ≤ x
    → AtMost l x
    → radix_loop 11 l 1 array semi ≡ int_overflow
large_overflow (negsuc n) array semi x h le = elim le [ ]
large_overflow (pos n) array semi x h le =
    radix_loop_overflow 9 11 n 1 array semi (omega arith) refl (omega arith) (omega arith)

-- On an array with an element of 10^9 or more, `radix_sort` overflows `significantDigit`.
pub radix_sort_overflow :
    (array semi_sorted : List ℕ) (i : ℕ)
    → i < length array
    → 10 ^ 9 ≤ get_or array i 0
    → radix_sort array semi_sorted ≡ int_overflow
unfolding radix_sort
radix_sort_overflow array semi i lt h =
    large_overflow (find_largest_num array) array semi (get_or array i 0) h
      (All_get_or (AtMost (find_largest_num array)) array i 0 lt (AtMost-find_largest_num array))
