-- ===== src/Asgard/Dealloc.antt =====
-- `shm_dealloc` of the lowest buffer in use: the `num` lowest buffers in use are free again.
use mathlib.Core.List.{Perm, perm_append_comm}
use mathlib.Core.List.Perm
use spsc.Prelude.{
  ℕ, ◌+◌, ◌-◌, ◌*◌, ◌/◌, ◌≤◌, ◌≡◌, refl, ap, ◌∙◌, false, List, [], ◌∷◌, ◌++◌, arith, length, take,
  drop, All-append, All-left, All-right, ltb, returned,
}
use spsc.Radix.{move_array}
use spsc.Radix.Search.{FoundAt, binary_search_found}
use spsc.Asgard.{Asgard, transfer, sort_pool, shm_dealloc}
use spsc.Asgard.Transfer.{zeros}
use spsc.Asgard.Pools.{IsNumber, Holds, OnlyPools}
use spsc.Asgard.Handover.{handover}
use spsc.Asgard.Alloc.{Holds-IsNumber}

-- the buffer number that `shm_dealloc` computes from an address
pub buffer_number : (base b : ℕ) → (base + b * 1024 - base) / 1024 ≡ b
buffer_number base b = omega arith

pub shm_dealloc_steps :
    (s : Asgard) (stack : List ℕ) (num b : ℕ) {pre post busy_pool free_pool sorted_free : List ℕ}
    → FoundAt s.busy_pool s.members b pre post
    → num ≤ s.members
    → transfer (num - length pre) (length pre) s.members s.busy_pool s.free_pool
      ≡ (busy_pool, free_pool)
    → sort_pool free_pool stack ≡ returned sorted_free
    → shm_dealloc stack num (s.data_ptr + b * 1024) s
      ≡ returned (record s { free_pool = move_array sorted_free; busy_pool = move_array busy_pool })
unfolding shm_dealloc
shm_dealloc_steps s stack num b {pre} at le e run =
    let allowed : ltb s.members num ≡ false = ground arith in
    rw (
      buffer_number s.data_ptr b,
      binary_search_found 0 s.members b at,
      allowed,
      ap (λ t. t.0) e,
      ap (λ t. t.1) e,
      run,
    )

-- At the address of the lowest buffer in use, and with at least `num` in use, `shm_dealloc` puts the
-- `num` lowest buffers in use among the free ones, which are in order again; the others stay in
-- use, and nothing but the pools changes.
pub shm_dealloc_lem :
    {s : Asgard} (stack free : List ℕ) (b : ℕ) (busy : List ℕ) (num : ℕ)
    → Holds s free (b ∷ busy)
    → length stack ≡ s.members
    → num ≤ length (b ∷ busy)
    → (free' : List ℕ) × (s' : Asgard) × (shm_dealloc stack num (s.data_ptr + b * 1024) s
        ≡ returned s')
      × Holds s' free' (drop num (b ∷ busy))
      × Perm free' (free ++ take num (b ∷ busy))
      × OnlyPools s s'
shm_dealloc_lem {s} stack free b busy num h scratch le =
    let used = b ∷ busy in
    let are_numbers = Holds-IsNumber free used h in
    let turned =
      All-append IsNumber used free (All-right IsNumber free used are_numbers)
        (All-left IsNumber free used are_numbers) in
    let (f, t, sorted_t, free', m) =
      handover num used free s.busy_pool s.free_pool stack s.members h.busy_at h.free_at
        (omega (arith, h.sizes)) scratch turned h.busy_order le in
    let at : FoundAt s.busy_pool s.members b [] (busy ++ zeros (length free)) = record {
      shape = h.busy_at;
      within = omega (arith, h.sizes);
      first = tt;
    } in
    let all_rounds : num - 0 ≡ num = omega arith in
    let whole_loop = ap (λ n. transfer n 0 s.members s.busy_pool s.free_pool) all_rounds in
    (
      free',
      record s { free_pool = move_array sorted_t; busy_pool = move_array f },
      shm_dealloc_steps s stack num b at (omega (arith, h.sizes)) (whole_loop ∙ m.moves) m.sorts,
      record {
        sizes = omega (arith, m.sizes);
        few = h.few;
        free_at = m.to_form;
        busy_at = m.from_form;
        free_order = m.taken_order;
        busy_order = m.left_order;
        all =
            Perm.trans (perm_append_comm free' (drop num used))
              (Perm.trans m.all (Perm.trans (perm_append_comm used free) h.all));
      },
      m.taken,
      refl,
    )
