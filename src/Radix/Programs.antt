-- ===== src/Radix/Programs.antt =====
-- The test programs of radix_sort.c, which print nothing, as `printArray` returns at once: an array is
-- sorted and turned round. `stack` is what a local array of a size holds at first.
use spsc.Prelude.{ℕ, List, [], ◌∷◌, length}
use spsc.Radix.{Outcome, sorted, int_overflow, out_of_fuel, radix_sort, reverse, move_array}

-- the array at the end, where the sort ends
unfoldable pub turned : Outcome → Outcome
turned (sorted list) = sorted (reverse list)
turned int_overflow = int_overflow
turned out_of_fuel = out_of_fuel

module _ (stack : ℕ → List ℕ) where
  unfoldable pub test_helper : List ℕ → Outcome
  unfolding turned
  test_helper list = turned (radix_sort list (stack (length list)))

  unfoldable pub test_even : Outcome
  unfolding test_helper
  test_even = test_helper (10 ∷ 2 ∷ 303 ∷ 4021 ∷ 293 ∷ 1 ∷ 0 ∷ 429 ∷ 480 ∷ 92 ∷ 2999 ∷ 14 ∷ [])

  unfoldable pub test_odd : Outcome
  unfolding test_helper
  test_odd = test_helper (10 ∷ 2 ∷ 303 ∷ 4021 ∷ 293 ∷ 1 ∷ 0 ∷ 429 ∷ 480 ∷ 92 ∷ 2999 ∷ [])

  -- the three arrays
  unfoldable pub test_sequence : Outcome × Outcome × Outcome
  unfolding test_helper
  test_sequence = (
    test_helper (0 ∷ 1 ∷ 2 ∷ 3 ∷ 4 ∷ 5 ∷ 6 ∷ 7 ∷ 8 ∷ 9 ∷ []),
    test_helper (0 ∷ 0 ∷ 0 ∷ 1 ∷ 2 ∷ 3 ∷ []),
    test_helper (0 ∷ 1 ∷ 2 ∷ 3 ∷ 0 ∷ []),
  )

unfoldable pub test_move : List ℕ
test_move = move_array (0 ∷ 1 ∷ 2 ∷ 3 ∷ 4 ∷ 5 ∷ 6 ∷ 7 ∷ 8 ∷ 9 ∷ [])

-- `main`
unfoldable program : (ℕ → List ℕ) → Outcome × Outcome × (Outcome × Outcome × Outcome) × List ℕ
unfolding test_odd test_even test_sequence test_move
program stack = (test_odd stack, test_even stack, test_sequence stack, test_move)
