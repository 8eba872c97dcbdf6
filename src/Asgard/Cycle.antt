-- ===== src/Asgard/Cycle.antt =====
-- The producer's use of the allocator: one allocation at a time, taken back before the next.
use mathlib.Core.Path.{ap₂, subst}
use mathlib.Core.List.{Perm, perm_append_comm}
use mathlib.Core.List.Perm
use spsc.Prelude.{
  ℕ, zero, suc, ◌+◌, ◌*◌, ◌≤◌, ◌<◌, ◌≡◌, refl, ap, sym, ◌∙◌, List, [], ◌∷◌, ◌++◌, arith, length,
  take, drop, take-append-drop, length-take, length-drop, take_all, IsSorted, IsSortedBy-left,
  IsSorted-eq_of_perm, some, returned,
}
use spsc.Asgard.{Asgard, shm_alloc, shm_dealloc}
use spsc.Asgard.Pools.{Holds, OnlyPools}
use spsc.Asgard.Alloc.{shm_alloc_lem}
use spsc.Asgard.Dealloc.{shm_dealloc_lem}

nil_of_length : (xs : List ℕ) → length xs ≡ 0 → xs ≡ []
nil_of_length [] e = refl
nil_of_length (x ∷ xs) e = absurd (omega arith)

-- Two states that differ in the pools alone, and hold the same numbers, are one.
Holds-unique :
    {s s' : Asgard} {free busy : List ℕ}
    → Holds s free busy
    → Holds s' free busy
    → OnlyPools s s'
    → s' ≡ s
Holds-unique {s} h h' only =
    only
    ∙ ap₂ (λ f b. record s { free_pool = f; busy_pool = b }) (h'.free_at ∙ sym h.free_at)
        (h'.busy_at ∙ sym h.busy_at)

OnlyPools-trans : (s t u : Asgard) → OnlyPools s t → OnlyPools t u → OnlyPools s u
OnlyPools-trans s t u st tu =
    tu ∙ ap (λ (a : Asgard). record a { free_pool = u.free_pool; busy_pool = u.busy_pool }) st

-- With nothing in use and at least `num` buffers free, `num` not 0, `shm_alloc` returns the address
-- of the lowest buffer and leaves the `num` lowest in use, and `shm_dealloc` of `num` buffers at
-- that address brings back the very state before.
pub shm_alloc-shm_dealloc :
    {s : Asgard} (stack stack' free : List ℕ) (first : ℕ) (num : ℕ)
    → Holds s (first ∷ free) []
    → length stack ≡ s.members
    → length stack' ≡ s.members
    → 0 < num
    → num ≤ length (first ∷ free)
    → (s' : Asgard) × (shm_alloc stack num s ≡ returned (some (s.data_ptr + first * 1024), s'))
      × Holds s' (drop num (first ∷ free)) (take num (first ∷ free))
      × (shm_dealloc stack' num (s.data_ptr + first * 1024) s' ≡ returned s)
shm_alloc-shm_dealloc {s} stack stack' free first zero h e e' pos le = elim pos [ ]
shm_alloc-shm_dealloc {s} stack stack' free first (suc num) h e e' pos le =
    let n = suc num in
    let whole = take-append-drop n (first ∷ free) in
    let given = take n (first ∷ free) in
    let left = drop n (first ∷ free) in
    let (busy₁, s₁, run₁, held₁, taken₁, only₁) = shm_alloc_lem stack (first ∷ free) [] n h e le in
    let busy_eq : busy₁ ≡ given =
      IsSorted-eq_of_perm busy₁ given held₁.busy_order
        (IsSortedBy-left (λ x. x) given left (subst IsSorted (sym whole) h.free_order)) taken₁ in
    let held = subst (Holds s₁ left) busy_eq held₁ in
    let (free₂, s₂, run₂, held₂, taken₂, only₂) =
      shm_dealloc_lem stack' left first (take num free) n held
        (e' ∙ sym (ap (λ a. a.members) only₁)) (omega (arith, length-take num free)) in
    let none_left : drop n given ≡ [] =
      nil_of_length (drop n given) (omega (arith, length-drop n given, length-take num free)) in
    let back : Perm free₂ (first ∷ free) =
      Perm.trans
        (subst (λ l. Perm free₂ (left ++ l))
          (take_all n given (omega (arith, length-take num free))) taken₂)
        (subst (Perm (left ++ given)) whole (perm_append_comm left given)) in
    let free_eq = IsSorted-eq_of_perm free₂ (first ∷ free) held₂.free_order h.free_order back in
    let restored : s₂ ≡ s =
      Holds-unique h
        (subst (Holds s₂ (first ∷ free)) none_left
          (subst (λ l. Holds s₂ l (drop n given)) free_eq held₂))
        (OnlyPools-trans s s₁ s₂ only₁ only₂) in
    let address = ap (λ a. a.data_ptr + first * 1024) only₁ in
    (
      s₁,
      run₁,
      held,
      ap (λ m. shm_dealloc stack' n m s₁) (sym address) ∙ run₂ ∙ ap returned restored,
    )
