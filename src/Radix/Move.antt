-- ===== src/Radix/Move.antt =====
-- `move_array` turns the zeros at the start of an array round to its end.
use spsc.Prelude.{
  ℕ, zero, suc, ◌<◌, ◌+◌, ◌-◌, ◌≡◌, ◌≢◌, refl, ap, sym, ◌∙◌, List, [], ◌∷◌, ◌++◌, arith, false,
  ◌==◌, length, get_or, replicate, get_or-append, set-append, length-append, length-replicate,
  append-nil, append_assoc,
}
use spsc.Radix.{first_nonzero, shift_down, zero_fill, move_array}

-- The copying loop, with `done` copied and the gap `gap` before what is left: the gap, filled with
-- other numbers, ends up last.
shift_down_lem :
    (rest done gap : List ℕ) (rounds j i : ℕ)
    → rounds ≡ length rest
    → j ≡ length done
    → i ≡ length done + length gap
    → 0 < length gap
    → (junk : List ℕ) × (shift_down rounds j i (done ++ (gap ++ rest)) ≡ done ++ (rest ++ junk))
      × (length junk ≡ length gap)
unfolding shift_down
shift_down_lem rest done [] rounds j i er ej ei pos = elim pos [ ]
shift_down_lem [] done (g ∷ gap) zero j i er ej ei pos =
    (g ∷ gap, ap (λ l. done ++ l) (append-nil (g ∷ gap)), refl)
shift_down_lem [] done (g ∷ gap) (suc rounds) j i er ej ei pos = absurd (omega arith)
shift_down_lem (r ∷ rest) done (g ∷ gap) zero j i er ej ei pos = absurd (omega arith)
shift_down_lem (r ∷ rest) done (g ∷ gap) (suc rounds) j i er ej ei pos =
    let read : get_or (done ++ (g ∷ gap ++ r ∷ rest)) i 0 ≡ r =
      ap (λ l. get_or l i 0) (sym (append_assoc done (g ∷ gap) (r ∷ rest)))
      ∙ get_or-append (done ++ g ∷ gap) rest r i 0 (omega (arith, length-append done (g ∷ gap))) in
    let regroup : done ++ r ∷ (gap ++ r ∷ rest) ≡ (done ++ r ∷ []) ++ ((gap ++ r ∷ []) ++ rest) =
      sym (append_assoc done (r ∷ []) (gap ++ r ∷ rest))
      ∙ ap (λ l. (done ++ r ∷ []) ++ l) (sym (append_assoc gap (r ∷ []) rest)) in
    let (junk, out, size) =
      shift_down_lem rest (done ++ r ∷ []) (gap ++ r ∷ []) rounds (j + 1) (i + 1) (omega arith)
        (omega (arith, length-append done (r ∷ [])))
        (omega (arith, length-append done (r ∷ []), length-append gap (r ∷ [])))
        (omega (arith, length-append gap (r ∷ []))) in
    rw (read, set-append done (gap ++ r ∷ rest) g j r ej, regroup)
      (
        junk,
        out ∙ append_assoc done (r ∷ []) (rest ++ junk),
        omega (arith, size, length-append gap (r ∷ [])),
      )

zero_fill_lem :
    (junk done : List ℕ) (rounds j : ℕ)
    → rounds ≡ length junk
    → j ≡ length done
    → zero_fill rounds j (done ++ junk) ≡ done ++ replicate (length junk) 0
unfolding zero_fill
zero_fill_lem [] done zero j er ej = refl
zero_fill_lem [] done (suc rounds) j er ej = absurd (omega arith)
zero_fill_lem (x ∷ junk) done zero j er ej = absurd (omega arith)
zero_fill_lem (x ∷ junk) done (suc rounds) j er ej = rw (set-append done junk x j 0 ej) (
    ap (zero_fill rounds (j + 1)) (sym (append_assoc done (0 ∷ []) junk))
    ∙ zero_fill_lem junk (done ++ 0 ∷ []) rounds (j + 1) (omega arith)
        (omega (arith, length-append done (0 ∷ [])))
    ∙ append_assoc done (0 ∷ []) (replicate (length junk) 0))

-- the array does not begin with a zero
abbrev pub NonzeroHead : List ℕ → Type 0
NonzeroHead [] = Unit {0}
NonzeroHead (x ∷ xs) = x ≢ 0

first_nonzero_lem :
    (k : ℕ) (rest : List ℕ) (i : ℕ)
    → NonzeroHead rest
    → first_nonzero (replicate k 0 ++ rest) i ≡ i + k
unfolding first_nonzero
first_nonzero_lem zero [] i h = omega arith
first_nonzero_lem zero (x ∷ rest) i h = ground arith
first_nonzero_lem (suc k) rest i h = omega (arith, first_nonzero_lem k rest (i + 1) h)

-- Where `k` zeros stand before a rest that is empty or begins with another number, `move_array`
-- leaves the rest as it is, followed by the `k` zeros.
pub move_array_lem :
    (k : ℕ) (rest : List ℕ)
    → NonzeroHead rest
    → move_array (replicate k 0 ++ rest) ≡ rest ++ replicate k 0
unfolding move_array
move_array_lem zero rest h =
    let start : first_nonzero rest 0 ≡ 0 = first_nonzero_lem zero rest 0 h in
    rw start (sym (append-nil rest))
move_array_lem (suc k) rest h =
    let zeros : List ℕ = replicate (suc k) 0 in
    let size = length-append zeros rest in
    let gap_size = length-replicate (suc k) zero in
    let start : first_nonzero (zeros ++ rest) 0 ≡ suc k =
      first_nonzero_lem (suc k) rest 0 h ∙ omega arith in
    let (junk, shifted, junk_size) =
      shift_down_lem rest [] zeros (length (zeros ++ rest) - suc k) 0 (suc k)
        (omega (arith, size, gap_size)) refl (omega (arith, gap_size)) (omega (arith, gap_size)) in
    let total = length (zeros ++ rest) in
    let moved : (suc k == 0) ≡ false = ground arith in
    rw (start, moved, shifted)
      (zero_fill_lem junk rest (total - (total - suc k)) (total - suc k)
          (omega (arith, size, gap_size, junk_size)) (omega (arith, size, gap_size, junk_size))
        ∙ ap (λ n. rest ++ replicate n 0) (junk_size ∙ gap_size))
