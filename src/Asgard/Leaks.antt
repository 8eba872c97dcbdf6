-- ===== src/Asgard/Leaks.antt =====
-- What `shm_dealloc` and `shm_alloc` do where the allocations are not taken back in the order in
-- which they were made.
use mathlib.Core.Path.{ap₂, subst}
use mathlib.Core.List.{Perm}
use spsc.Prelude.{
  ℕ, ◌+◌, ◌-◌, ◌*◌, ◌≤◌, ◌≡◌, ◌≢◌, refl, ap, sym, ◌∙◌, List, ◌∷◌, ◌++◌, arith, length,
  length-append, append-nil, append_assoc, All, All-append, All-left, All-right, returned,
  IsSorted-eq_of_perm,
}
use spsc.Radix.Search.{FoundAt}
use spsc.Asgard.{Asgard, transfer, shm_dealloc}
use spsc.Asgard.Transfer.{zeros}
use spsc.Asgard.Pools.{IsNumber, Holds}
use spsc.Asgard.Handover.{handover}
use spsc.Asgard.Alloc.{Holds-IsNumber}
use spsc.Asgard.Dealloc.{shm_dealloc_steps}

transfer_none : (i members : ℕ) (from to : List ℕ) → transfer 0 i members from to ≡ (from, to)
unfolding transfer
transfer_none i members from to = refl

-- Given the address of a buffer in use that has at least `num` lower buffers in use before it,
-- `shm_dealloc` frees nothing: it returns the state that it was given.
pub shm_dealloc_leaks :
    {s : Asgard} (stack free pre : List ℕ) (b : ℕ) (post : List ℕ) (num : ℕ)
    → Holds s free (pre ++ b ∷ post)
    → All (λ x. x ≢ b) pre
    → length stack ≡ s.members
    → num ≤ length pre
    → shm_dealloc stack num (s.data_ptr + b * 1024) s ≡ returned s
shm_dealloc_leaks {s} stack free pre b post num h first scratch le =
    let used = pre ++ b ∷ post in
    let are_numbers = Holds-IsNumber free used h in
    let turned =
      All-append IsNumber used free (All-right IsNumber free used are_numbers)
        (All-left IsNumber free used are_numbers) in
    let (f, t, sorted_t, free', m) =
      handover 0 used free s.busy_pool s.free_pool stack s.members h.busy_at h.free_at
        (omega (arith, h.sizes)) scratch turned h.busy_order (omega arith) in
    let at : FoundAt s.busy_pool s.members b pre (post ++ zeros (length free)) = record {
      shape = h.busy_at ∙ append_assoc pre (b ∷ post) (zeros (length free));
      within = omega (arith, h.sizes, length-append pre (b ∷ post));
      first = first;
    } in
    let no_rounds : num - length pre ≡ 0 = omega arith in
    let moves =
      ap (λ n. transfer n (length pre) s.members s.busy_pool s.free_pool) no_rounds
      ∙ transfer_none (length pre) s.members s.busy_pool s.free_pool
      ∙ sym (transfer_none 0 s.members s.busy_pool s.free_pool)
      ∙ m.moves in
    let same : free' ≡ free =
      IsSorted-eq_of_perm free' free m.taken_order h.free_order
        (subst (Perm free') (append-nil free) m.taken) in
    shm_dealloc_steps s stack num b at (omega (arith, h.sizes, length-append pre (b ∷ post))) moves
      m.sorts
    ∙ ap₂ (λ x y. returned (record s { free_pool = x; busy_pool = y }))
        (m.to_form ∙ ap (λ l. l ++ zeros (length used)) same ∙ sym h.free_at)
        (m.from_form ∙ ap (λ l. used ++ zeros (length l)) same ∙ sym h.busy_at)
