-- ===== src/Asgard/Handover.antt =====
-- What `shm_alloc` and `shm_dealloc` do alike: the first `num` numbers of one pool pass to the other,
-- and both pools are put in form again.
use mathlib.Core.Path.{subst}
use mathlib.Core.List.{Perm, perm_append_comm}
use mathlib.Core.List.Perm
use spsc.Prelude.{
  ℕ, ◌+◌, ◌≤◌, ◌≡◌, ap, sym, ◌∙◌, List, ◌++◌, arith, length, take, drop, length-append, length-take,
  length-drop, take-append-drop, append_assoc, All, All-left, All-right, IsSorted, IsSortedBy-right,
  length-perm, returned,
}
use spsc.Radix.{move_array}
use spsc.Asgard.{transfer, sort_pool}
use spsc.Asgard.Transfer.{zeros}
use spsc.Asgard.Pools.{IsNumber, giving_pool, taking_pool}

-- From the pools of `from` and `to`, with `f` and `b` after the loop, and `sorted_b` after the
-- sort: at the end the pools are those of `drop num from` and `to'`.
pub record Handover (num : ℕ) (from to from_pool to_pool stack : List ℕ) (members : ℕ)
    (f b sorted_b to' : List ℕ) : Type 0 where
  pub moves : transfer num 0 members from_pool to_pool ≡ (f, b)
  pub sorts : sort_pool b stack ≡ returned sorted_b
  pub from_form : move_array f ≡ drop num from ++ zeros (length to')
  pub to_form : move_array sorted_b ≡ to' ++ zeros (length (drop num from))
  pub left_order : IsSorted (drop num from)
  pub taken_order : IsSorted to'
  pub taken : Perm to' (to ++ take num from)
  pub sizes : length (drop num from) + length to' ≡ members
  pub all : Perm (drop num from ++ to') (from ++ to)

perm_regroup : (given left to : List ℕ) → Perm (left ++ (to ++ given)) ((given ++ left) ++ to)
perm_regroup given left to =
    rw (← append_assoc left to given, append_assoc given left to)
      (perm_append_comm (left ++ to) given)

module _ (num : ℕ) (from to from_pool to_pool stack : List ℕ) (members : ℕ)
    (from_at : from_pool ≡ from ++ zeros (length to)) (to_at : to_pool ≡ to ++ zeros (length from))
    (total : length from + length to ≡ members) (scratch : length stack ≡ members)
    (are_numbers : All IsNumber (from ++ to)) (order : IsSorted from) (le : num ≤ length from) where
  abbrev given : List ℕ
  given = take num from

  abbrev left : List ℕ
  left = drop num from

  given_size : length given ≡ num
  given_size = omega (arith, length-take num from)

  sizes_split : length to + (length given + length left) ≡ members
  sizes_split = omega (arith, given_size, length-drop num from)

  from_split : from_pool ≡ given ++ (left ++ zeros (length to))
  from_split =
      from_at
      ∙ ap (λ l. l ++ zeros (length to)) (sym (take-append-drop num from))
      ∙ append_assoc given left (zeros (length to))

  to_split : to_pool ≡ to ++ zeros (length given + length left)
  to_split =
      to_at
      ∙ ap (λ n. to ++ zeros n)
          (let e : length from ≡ length given + length left = omega (arith, sizes_split) in e)

  numbers_split : All IsNumber (given ++ left)
  numbers_split =
      subst (All IsNumber) (sym (take-append-drop num from)) (All-left IsNumber from to are_numbers)

  abbrev done : List ℕ × List ℕ
  done =
      transfer (length given) 0 members (given ++ (left ++ zeros (length to)))
        (to ++ zeros (length given + length left))

  moves_split : transfer num 0 members from_pool to_pool ≡ (done.0, done.1)
  moves_split = cc (from_split, to_split, given_size)

  pub handover :
      (f b sorted_b to' : List ℕ) × Handover num from to from_pool to_pool stack members f b
        sorted_b to'
  handover =
      let ng = All-left IsNumber given left numbers_split in
      let nl = All-right IsNumber given left numbers_split in
      let nt = All-right IsNumber from to are_numbers in
      let gave = giving_pool given left to stack members sizes_split scratch ng nl nt in
      let (to', run, placed, ordered, perm) =
        taking_pool given left to stack members sizes_split scratch ng nl nt in
      let size : length to' ≡ length to + length given =
        length-perm to' (to ++ given) perm ∙ length-append to given in
      (
        done.0,
        done.1,
        zeros (length left) ++ to',
        to',
        record {
          moves = moves_split;
          sorts = run;
          from_form = gave ∙ ap (λ n. left ++ zeros n) (sym size);
          to_form = placed;
          left_order =
              IsSortedBy-right (λ x. x) given left
                (subst IsSorted (sym (take-append-drop num from)) order);
          taken_order = ordered;
          taken = perm;
          sizes = omega (arith, size, sizes_split);
          all = Perm.trans (Perm.append_left left perm) (
              subst (λ l. Perm (left ++ (to ++ given)) (l ++ to)) (take-append-drop num from)
                (perm_regroup given left to));
        },
      )
