-- ===== src/Radix.antt =====
-- radix_sort.c: the array routines of the buffer allocator. An array of ints that are not negative
-- is the list of its elements, and `size` is its length, as in every call of the program.
pub mod Counts
pub mod Places
pub mod Collect
pub mod Sort
pub mod Largest
pub mod Move
pub mod Reverse
pub mod Search
pub mod Programs
mod Tests
use spsc.Prelude.{
  ℕ, zero, suc, ◌+◌, ◌-◌, ◌*◌, ◌/◌, ◌%◌, ◌^◌, Bool, true, false, Option, none, some, List, [], ◌∷◌,
  ℤ, pos, negsuc, ltb, ltb_ℤ, ◌==◌, if◌then◌else◌, length, get_or, set, replicate,
}

-- `for (i = 0; i < size; i++) if (array[i] > largestNum) largestNum = array[i];`
largest_from : ℤ → List ℕ → ℤ
largest_from largest_num [] = largest_num
largest_from largest_num (x ∷ array) =
    largest_from (if ltb_ℤ largest_num (pos x) then pos x else largest_num) array

unfoldable pub find_largest_num : List ℕ → ℤ
unfolding largest_from
find_largest_num array = largest_from (negsuc 0) array

-- `(array[i] / significantDigit) % 10`
abbrev pub digit : ℕ → ℕ → ℕ
digit significant_digit x = (x / significant_digit) % 10

-- `bucket[(array[i] / significantDigit) % 10]++` for each element
unfoldable pub count_digits : (ℕ → ℕ) → List ℕ → List ℕ → List ℕ
count_digits key [] bucket = bucket
count_digits key (x ∷ array) bucket =
    count_digits key array (set bucket (key x) (get_or bucket (key x) 0 + 1))

-- `for (i = 1; i < 10; i++) bucket[i] += bucket[i - 1];`, with the rounds left
unfoldable pub accumulate : ℕ → ℕ → List ℕ → List ℕ
accumulate zero i bucket = bucket
accumulate (suc rounds) i bucket =
    accumulate rounds (i + 1) (set bucket i (get_or bucket i 0 + get_or bucket (i - 1) 0))

-- `for (i = size - 1; i >= 0; i--) semiSorted[--bucket[digit]] = array[i];`, at `i + 1` elements
-- A count is at least 1 where it is decremented: `Radix.Places`.
unfoldable pub fill : (ℕ → ℕ) → List ℕ → ℕ → List ℕ → List ℕ → List ℕ
fill key array zero bucket semi_sorted = semi_sorted
fill key array (suc i) bucket semi_sorted =
    let x = get_or array i 0 in
    let place = get_or bucket (key x) 0 - 1 in
    fill key array i (set bucket (key x) place) (set semi_sorted place x)

-- `for (i = 0; i < size; i++) array[i] = semiSorted[i];`
unfoldable pub copy : List ℕ → List ℕ → List ℕ
copy (x ∷ array) (y ∷ semi_sorted) = y ∷ copy array semi_sorted
copy array semi_sorted = array

-- `semiSorted` after the three loops of one round, for the digit `key` in base `base`
unfoldable pub place_all : ℕ → (ℕ → ℕ) → List ℕ → List ℕ → List ℕ
place_all base key array semi_sorted =
    let counts = count_digits key array (replicate base 0) in
    fill key array (length array) (accumulate (base - 1) 1 counts) semi_sorted

-- How `radix_sort` ends: with the array, with `significantDigit *= 10` passing `INT_MAX`, which C
-- leaves undefined, or with the model's fuel used up.
pub data Outcome : Type 0 where
  sorted : List ℕ → Outcome
  int_overflow : Outcome
  out_of_fuel : Outcome

abbrev pub int_max : ℕ
int_max = 2 ^ 31 - 1

-- `largestNum / significantDigit > 0`; a quotient of -1 is at most 0
abbrev pub digits_left : ℤ → ℕ → Bool
digits_left (pos n) significant_digit = ltb 0 (n / significant_digit)
digits_left (negsuc n) significant_digit = false

unfoldable pub radix_loop : ℕ → ℤ → ℕ → List ℕ → List ℕ → Outcome
radix_loop zero largest_num significant_digit array semi_sorted = out_of_fuel
radix_loop (suc fuel) largest_num significant_digit array semi_sorted =
    let semi = place_all 10 (digit significant_digit) array semi_sorted in
    let next = radix_loop fuel largest_num (significant_digit * 10) (copy array semi) semi in
    let round = if ltb int_max (significant_digit * 10) then int_overflow else next in
    if digits_left largest_num significant_digit then round else sorted array

-- `semi_sorted` is what the uninitialised local array holds at the start.
unfoldable pub radix_sort : List ℕ → List ℕ → Outcome
unfolding find_largest_num
radix_sort array semi_sorted = radix_loop 11 (find_largest_num array) 1 array semi_sorted

-- `for (i = 0; i < size / 2; i++)` swaps `array[i]` and `array[size - 1 - i]`.
unfoldable pub reverse_from : ℕ → ℕ → List ℕ → List ℕ
reverse_from zero i array = array
reverse_from (suc rounds) i array =
    let t = get_or array i 0 in
    let j = length array - 1 - i in
    reverse_from rounds (i + 1) (set (set array i (get_or array j 0)) j t)

unfoldable pub reverse : List ℕ → List ℕ
unfolding reverse_from
reverse array = reverse_from (length array / 2) 0 array

-- the first loop of `move_array`: the index of the first element that is not zero, or `size`
unfoldable pub first_nonzero : List ℕ → ℕ → ℕ
first_nonzero [] i = i
first_nonzero (x ∷ array) i = let next = first_nonzero array (i + 1) in if x == 0 then next else i

-- `for (j = 0; i < size; j++, i++) array[j] = array[i];`, with the rounds left
unfoldable pub shift_down : ℕ → ℕ → ℕ → List ℕ → List ℕ
shift_down zero j i array = array
shift_down (suc rounds) j i array =
    shift_down rounds (j + 1) (i + 1) (set array j (get_or array i 0))

-- `while (j < size) array[j++] = 0;`, with the rounds left
unfoldable pub zero_fill : ℕ → ℕ → List ℕ → List ℕ
zero_fill zero j array = array
zero_fill (suc rounds) j array = zero_fill rounds (j + 1) (set array j 0)

-- The second loop leaves `j` at `size - i`.
unfoldable pub move_array : List ℕ → List ℕ
unfolding first_nonzero shift_down zero_fill
move_array array =
    let size = length array in
    let i = first_nonzero array 0 in
    if i == 0
    then array
    else zero_fill (size - (size - i)) (size - i) (shift_down (size - i) 0 i array)

-- `binarySearch(arr, l, r, x)` as it is built, without `BIN_SEARCH`: `l` is not read. `none` is a
-- read outside the array.
search_from : List ℕ → ℕ → ℕ → ℕ → Option ℤ
search_from arr i zero x = some (negsuc 0)
search_from [] i (suc rounds) x = none
search_from (y ∷ arr) i (suc rounds) x =
    let next = search_from arr (i + 1) rounds x in if y == x then some (pos i) else next

unfoldable pub binary_search : List ℕ → ℕ → ℕ → ℕ → Option ℤ
unfolding search_from
binary_search arr l r x = search_from arr 0 r x
