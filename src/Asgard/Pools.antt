-- ===== src/Asgard/Pools.antt =====
-- What the two pools hold: between them the numbers 1 to `members`, each pool in ascending order
-- and followed by zeros.
use mathlib.Core.Path.{ap₂, subst}
use mathlib.Core.HLevel.{×_prop}
use mathlib.Core.List.{reverse_aux, Perm, perm_append_comm, reverse_perm}
use mathlib.Core.List.Perm
use native.Mathlib.Bridge.{le_prop}
use spsc.Prelude.{
  ℕ, zero, suc, ◌+◌, ◌-◌, ◌^◌, ◌<◌, ◌≡◌, refl, ap, sym, ◌∙◌, List, [], ◌∷◌, ◌++◌, arith, length,
  length-append, length-replicate, append-nil, append_assoc, All, All-append, All-map, All-perm,
  IsSorted, head-least, length-perm, returned,
}
use spsc.Radix.{move_array, radix_sort, sorted}
use spsc.Radix.Sort.{radix_sort-Sorts}
use spsc.Radix.Move.{NonzeroHead, move_array_lem}
use spsc.Asgard.{Asgard, transfer, sort_pool}
use spsc.Asgard.Transfer.{zeros, zeros-append, transfer_lem}

-- `n` numbers from `i` on
abbrev pub numbers : ℕ → ℕ → List ℕ
numbers zero i = []
numbers (suc n) i = i ∷ numbers n (i + 1)

-- buffer numbers that the sort can deal with
abbrev pub IsNumber : ℕ → Type 0
IsNumber x = (0 < x) × (x < 10 ^ 9)

pub record Holds (s : Asgard) (free busy : List ℕ) : Type 0 where
  pub sizes : length free + length busy ≡ s.members
  pub few : s.members < 10 ^ 9 - 1
  pub free_at : s.free_pool ≡ free ++ zeros (length busy)
  pub busy_at : s.busy_pool ≡ busy ++ zeros (length free)
  pub free_order : IsSorted free
  pub busy_order : IsSorted busy
  pub all : Perm (free ++ busy) (numbers s.members 1)

-- `s'` differs from `s` in the pools alone.
abbrev pub OnlyPools : Asgard → Asgard → Type 0
OnlyPools s s' = s' ≡ record s { free_pool = s'.free_pool; busy_pool = s'.busy_pool }

NonzeroHead-numbers : (xs : List ℕ) → All IsNumber xs → NonzeroHead xs
NonzeroHead-numbers [] h = tt
NonzeroHead-numbers (x ∷ xs) h = omega (arith, h.0.0)

-- Zeros before the numbers of a pool go behind them.
pub move_array-zeros :
    (k m : ℕ) (xs : List ℕ)
    → All IsNumber xs
    → move_array (zeros k ++ (xs ++ zeros m)) ≡ xs ++ zeros (m + k)
move_array-zeros k m [] h =
    let e : k + m ≡ m + k = omega arith in
    ap move_array (zeros-append k m ∙ sym (append-nil (zeros (k + m))))
    ∙ move_array_lem (k + m) [] tt
    ∙ ap zeros e
move_array-zeros k m (x ∷ xs) h =
    move_array_lem k (x ∷ xs ++ zeros m) (NonzeroHead-numbers (x ∷ xs) h)
    ∙ append_assoc (x ∷ xs) (zeros m) (zeros k)
    ∙ ap (λ l. (x ∷ xs) ++ l) (zeros-append m k)

-- An ascending rearrangement of zeros and numbers has the zeros in front.
IsSorted-zeros :
    (k : ℕ) (out xs : List ℕ)
    → IsSorted out
    → All IsNumber xs
    → Perm out (zeros k ++ xs)
    → (xs' : List ℕ) × (out ≡ zeros k ++ xs') × IsSorted xs' × Perm xs' xs
IsSorted-zeros zero out xs s h p = (out, refl, s, p)
IsSorted-zeros (suc k) [] xs s h p = absurd (omega (arith, length-perm [] (zeros (suc k) ++ xs) p))
IsSorted-zeros (suc k) (y ∷ out) xs s h p =
    let least = head-least y out s (Perm.symm p) in
    let first : y ≡ 0 = omega (arith, least.0) in
    let (xs', e, s', p') =
      IsSorted-zeros k out xs s.1 h
        (Perm.cons_inv (Perm.trans (Perm.cons' (sym first) Perm.rfl) p)) in
    (xs', ap₂ ◌∷◌ first e, s', p')

zeros_small : (k : ℕ) → All (λ x. x < 10 ^ 9) (zeros k)
zeros_small zero = tt
zeros_small (suc k) = (omega arith, zeros_small k)

sort_pool_of :
    (pool stack : List ℕ) {out : List ℕ}
    → radix_sort pool stack ≡ sorted out
    → sort_pool pool stack ≡ returned out
unfolding sort_pool
sort_pool_of pool stack e = rw (e, sort_pool)

-- Sorting a pool whose elements are zeros and numbers.
pub sort_pool_lem :
    (k : ℕ) (pool xs stack : List ℕ)
    → length stack ≡ length pool
    → All IsNumber xs
    → Perm pool (zeros k ++ xs)
    → (xs' : List ℕ) × (sort_pool pool stack ≡ returned (zeros k ++ xs'))
      × IsSorted xs'
      × Perm xs' xs
sort_pool_lem k pool xs stack e h p =
    let small =
      All-perm (λ x. x < 10 ^ 9) (λ x. le_prop) p
        (All-append (λ x. x < 10 ^ 9) (zeros k) xs (zeros_small k)
          (All-map IsNumber (λ x. x < 10 ^ 9) xs (λ x n. n.1) h)) in
    let (out, run, s, p') = radix_sort-Sorts pool stack e small in
    let (xs', shape, s', p'') = IsSorted-zeros k out xs s h (Perm.trans p' p) in
    (xs', sort_pool_of pool stack run ∙ ap returned shape, s', p'')

-- What the two functions do alike: the numbers `given` pass from the pool `given ++ left` to the
-- pool `kept`, and both pools are put in form again.
module _ (given left kept stack : List ℕ) (members : ℕ)
    (sizes : length kept + (length given + length left) ≡ members)
    (scratch : length stack ≡ members) (numbers_given : All IsNumber given)
    (numbers_left : All IsNumber left) (numbers_kept : All IsNumber kept) where
  abbrev moved : List ℕ × List ℕ
  moved =
      transfer (length given) 0 members (given ++ (left ++ zeros (length kept)))
        (kept ++ zeros (length given + length left))

  moved_lem : moved ≡ (
    zeros (length given) ++ (left ++ zeros (length kept)),
    kept ++ (zeros (length left) ++ reverse_aux given []),
  )
  moved_lem =
      ap
        (λ l.
          transfer (length given) 0 members (given ++ (left ++ zeros (length kept))) (kept ++ l))
        (sym (append-nil (zeros (length given + length left))))
      ∙ transfer_lem given (left ++ zeros (length kept)) kept [] (length left) (length given) 0
          members refl refl (omega arith)
      ∙ ap
          (λ m. (
            zeros m ++ (left ++ zeros (length kept)),
            kept ++ (zeros (length left) ++ reverse_aux given []),
          ))
          (let e : 0 + length given ≡ length given = omega arith in e)

  pub giving_pool : move_array moved.0 ≡ left ++ zeros (length kept + length given)
  giving_pool =
      ap (λ m. move_array m.0) moved_lem
      ∙ move_array-zeros (length given) (length kept) left numbers_left

  taking-perm :
      Perm
        (kept ++ (zeros (length left) ++ reverse_aux given []))
        (zeros (length left) ++ (kept ++ given))
  taking-perm =
      let z = zeros (length left) in
      let back = reverse_aux given [] in
      rw (← append_assoc kept z back, ← append_assoc z kept given)
        (Perm.append (perm_append_comm kept z) (reverse_perm given))

  pub taking_pool :
      (taken : List ℕ) × (sort_pool moved.1 stack ≡ returned (zeros (length left) ++ taken))
      × (move_array (zeros (length left) ++ taken) ≡ taken ++ zeros (length left))
      × IsSorted taken
      × Perm taken (kept ++ given)
  taking_pool =
      let all = All-append IsNumber kept given numbers_kept numbers_given in
      let scratch' : length stack ≡ length moved.1 = omega (
        arith,
        scratch,
        ap (λ m. length m.1) moved_lem,
        length-perm _ _ taking-perm,
        length-append (zeros (length left)) (kept ++ given),
        length-append kept given,
        length-replicate (length left) zero,
      ) in
      let same =
        subst (λ l. Perm l (zeros (length left) ++ (kept ++ given))) (sym (ap (λ m. m.1) moved_lem))
          taking-perm in
      let (taken, run, order, perm) =
        sort_pool_lem (length left) moved.1 (kept ++ given) stack scratch' all same in
      let fresh = All-perm IsNumber (λ x. ×_prop le_prop le_prop) perm all in
      (
        taken,
        run,
        ap (λ l. move_array (zeros (length left) ++ l)) (sym (append-nil taken))
            ∙ move_array-zeros (length left) 0 taken fresh
            ∙ ap (λ n. taken ++ zeros n) (let e : 0 + length left ≡ length left = omega arith in e),
        order,
        perm,
      )
