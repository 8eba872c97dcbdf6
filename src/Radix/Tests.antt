-- ===== src/Radix/Tests.antt =====
-- Runs of radix_sort.c, among them the program's own test lists.
use mathlib.Core.List.{Perm}
use spsc.Prelude.{
  ℕ, ◌≡◌, ◌≢◌, ◌⊎◌, refl, some, List, [], ◌∷◌, arith, length, replicate, take, All, IsSorted, pos,
  negsuc,
}
use spsc.Radix.{
  sorted, int_overflow, radix_sort, radix_loop, place_all, count_digits, accumulate, fill, copy,
  move_array, binary_search, reverse,
}
use spsc.Radix.Programs.{test_odd, test_even, test_sequence, test_move}
use spsc.Radix.Reverse.{reverse_lem}
use spsc.Radix.Sort.{radix_sort-Sorts, radix_sort_overflow}
use spsc.Radix.Move.{move_array_lem}
use spsc.Radix.Search.{FoundAt, binary_search_lem}

abbrev odd : List ℕ
odd = 10 ∷ 2 ∷ 303 ∷ 4021 ∷ 293 ∷ 1 ∷ 0 ∷ 429 ∷ 480 ∷ 92 ∷ 2999 ∷ []

-- what every sort finds on the stack
abbrev stack : ℕ → List ℕ
stack size = replicate size 7

-- The program's own test lists come out in descending order.
odd_test : test_odd stack ≡ sorted (4021 ∷ 2999 ∷ 480 ∷ 429 ∷ 303 ∷ 293 ∷ 92 ∷ 10 ∷ 2 ∷ 1 ∷ 0 ∷ [])
unfolding test_odd radix_sort radix_loop place_all count_digits accumulate fill copy reverse
odd_test = refl

even_test :
    test_even stack ≡ sorted (4021 ∷ 2999 ∷ 480 ∷ 429 ∷ 303 ∷ 293 ∷ 92 ∷ 14 ∷ 10 ∷ 2 ∷ 1 ∷ 0 ∷ [])
unfolding test_even radix_sort radix_loop place_all count_digits accumulate fill copy reverse
even_test = refl

sequence_test : test_sequence stack ≡ (
  sorted (9 ∷ 8 ∷ 7 ∷ 6 ∷ 5 ∷ 4 ∷ 3 ∷ 2 ∷ 1 ∷ 0 ∷ []),
  sorted (3 ∷ 2 ∷ 1 ∷ 0 ∷ 0 ∷ 0 ∷ []),
  sorted (3 ∷ 2 ∷ 1 ∷ 0 ∷ 0 ∷ []),
)
unfolding test_sequence radix_sort radix_loop place_all count_digits accumulate fill copy reverse
sequence_test = refl

move_test : test_move ≡ 1 ∷ 2 ∷ 3 ∷ 4 ∷ 5 ∷ 6 ∷ 7 ∷ 8 ∷ 9 ∷ 0 ∷ []
unfolding test_move move_array
move_test = refl

reverse_lem_example : reverse (1 ∷ 2 ∷ 3 ∷ 4 ∷ 5 ∷ []) ≡ 5 ∷ 4 ∷ 3 ∷ 2 ∷ 1 ∷ []
reverse_lem_example = reverse_lem (1 ∷ 2 ∷ 3 ∷ 4 ∷ 5 ∷ [])

-- a zero between numbers stays where it is
move_array_inner_zero : move_array (0 ∷ 1 ∷ 0 ∷ 2 ∷ []) ≡ 1 ∷ 0 ∷ 2 ∷ 0 ∷ []
unfolding move_array
move_array_inner_zero = refl

-- `l` is not read
binary_search_from : binary_search (5 ∷ 6 ∷ 5 ∷ []) 1 3 5 ≡ some (pos 0)
unfolding binary_search
binary_search_from = refl

radix_sort-Sorts_example :
    (result : List ℕ) × (radix_sort odd (stack 11) ≡ sorted result)
    × IsSorted result
    × Perm result odd
radix_sort-Sorts_example = radix_sort-Sorts odd (stack 11) refl (omega arith)

radix_sort_overflow_example : radix_sort (3 ∷ 1000000000 ∷ []) (0 ∷ 0 ∷ []) ≡ int_overflow
radix_sort_overflow_example =
    radix_sort_overflow (3 ∷ 1000000000 ∷ []) (0 ∷ 0 ∷ []) 1 (omega arith) (omega arith)

move_array_lem_example : move_array (0 ∷ 0 ∷ 4 ∷ 0 ∷ 9 ∷ []) ≡ 4 ∷ 0 ∷ 9 ∷ 0 ∷ 0 ∷ []
move_array_lem_example = move_array_lem 2 (4 ∷ 0 ∷ 9 ∷ []) (omega arith)

binary_search_lem_example :
    ((pre post : List ℕ) × FoundAt (4 ∷ 8 ∷ 8 ∷ []) 3 8 pre post
      × (binary_search (4 ∷ 8 ∷ 8 ∷ []) 0 3 8 ≡ some (pos (length pre))))
    ⊎ (All {A = ℕ} (λ y. y ≢ 8) (take 3 (4 ∷ 8 ∷ 8 ∷ []))
        × (binary_search (4 ∷ 8 ∷ 8 ∷ []) 0 3 8 ≡ some (negsuc 0)))
binary_search_lem_example = binary_search_lem (4 ∷ 8 ∷ 8 ∷ []) 0 3 8 (omega arith)
