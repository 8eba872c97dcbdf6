-- ===== src/Asgard/Alloc.antt =====
-- `shm_alloc`: it hands out the lowest free buffers, or none and changes nothing.
use mathlib.Core.List.{Perm}
use mathlib.Core.List.Perm
use mathlib.Core.HLevel.{×_prop}
use native.Mathlib.Bridge.{le_prop}
use spsc.Prelude.{
  ℕ, zero, suc, ◌+◌, ◌*◌, ◌^◌, ◌≤◌, ◌<◌, ◌≡◌, ◌≢◌, refl, ap, ◌∙◌, true, false, none, some, List, [],
  ◌∷◌, ◌++◌, arith, length, get_or, take, drop, All, All-left, All_get_or, All-perm, leb, ◌==◌,
  returned, ℕ_discrete,
}
use spsc.Radix.{move_array}
use spsc.Asgard.{Asgard, all_free, transfer, sort_pool, shm_alloc}
use spsc.Asgard.Transfer.{zeros}
use spsc.Asgard.Pools.{numbers, IsNumber, Holds, OnlyPools}
use spsc.Asgard.Handover.{handover}

all_free-true :
    (rounds i : ℕ) (pool : List ℕ)
    → ((j : ℕ) → i ≤ j → j < i + rounds → get_or pool j 0 ≢ 0)
    → all_free rounds i pool ≡ true
unfolding all_free
all_free-true zero i pool h = refl
all_free-true (suc rounds) i pool h =
    let here : (get_or pool i 0 == 0) ≡ false = ground (arith, h i (omega arith) (omega arith)) in
    rw here (all_free-true rounds (i + 1) pool (λ j le lt. h j (omega arith) (omega arith)))

pub all_free-false :
    (rounds i : ℕ) (pool : List ℕ) (j : ℕ)
    → i ≤ j
    → j < i + rounds
    → get_or pool j 0 ≡ 0
    → all_free rounds i pool ≡ false
unfolding all_free
all_free-false zero i pool j le lt e = absurd (omega arith)
all_free-false (suc rounds) i pool j le lt e = elim (ℕ_discrete i j) [
  | yes same ↦
      let here : get_or pool i 0 ≡ 0 = ap (λ k. get_or pool k 0) same ∙ e in ground (arith, here)
  | no ne ↦ ground (arith, all_free-false rounds (i + 1) pool j (omega arith) (omega arith) e)
]

-- Zeros behind a pool are what a read past its end gives.
pub get_or-zeros : (xs : List ℕ) (k i : ℕ) → get_or (xs ++ zeros k) i 0 ≡ get_or xs i 0
get_or-zeros [] zero i = refl
get_or-zeros [] (suc k) zero = refl
get_or-zeros [] (suc k) (suc i) = get_or-zeros [] k i
get_or-zeros (x ∷ xs) k zero = refl
get_or-zeros (x ∷ xs) k (suc i) = get_or-zeros xs k i

pub get_or-length : (xs : List ℕ) → get_or xs (length xs) 0 ≡ 0
get_or-length [] = refl
get_or-length (x ∷ xs) = get_or-length xs

numbers-IsNumber : (n i : ℕ) → 0 < i → i + n < 10 ^ 9 → All IsNumber (numbers n i)
numbers-IsNumber zero i p h = tt
numbers-IsNumber (suc n) i p h =
    (omega arith, numbers-IsNumber n (i + 1) (omega arith) (omega arith))

-- Every buffer of the two pools is a number from 1 to `members`.
pub Holds-IsNumber :
    {s : Asgard} (free busy : List ℕ) → Holds s free busy → All IsNumber (free ++ busy)
Holds-IsNumber {s} free busy h =
    All-perm IsNumber (λ x. ×_prop le_prop le_prop) h.all
      (numbers-IsNumber s.members 1 (omega arith) (omega (arith, h.few)))

module _ {s : Asgard} (stack free busy : List ℕ) (num : ℕ) (h : Holds s free busy) where
  all_free_iff :
      (num ≤ length free → all_free num 0 s.free_pool ≡ true)
      × (length free < num → all_free num 0 s.free_pool ≡ false)
  all_free_iff = (
    λ le. rw h.free_at (
        all_free-true num 0 _ λ j _ lt e. omega (
          arith,
          e,
          get_or-zeros free (length busy) j,
          (All_get_or IsNumber free j 0 (omega arith)
              (All-left IsNumber free busy (Holds-IsNumber free busy h))).0,
        )),
    λ lt. rw h.free_at (
        all_free-false num 0 _ (length free) (omega arith) (omega arith)
          (get_or-zeros free (length busy) (length free) ∙ get_or-length free)),
  )

  -- Asked for at most `members` buffers with fewer free, `shm_alloc` returns `NULL` and changes
  -- nothing.
  pub shm_alloc_null :
      num ≤ s.members → length free < num → shm_alloc stack num s ≡ returned (none, s)
  unfolding shm_alloc
  shm_alloc_null le few =
      let allowed : leb num s.members ≡ true = ground arith in rw (allowed, all_free_iff.1 few)

  shm_alloc_steps :
      {free_pool busy_pool sorted_busy : List ℕ}
      → num ≤ s.members
      → num ≤ length free
      → transfer num 0 s.members s.free_pool s.busy_pool ≡ (free_pool, busy_pool)
      → sort_pool busy_pool stack ≡ returned sorted_busy
      → shm_alloc stack num s
        ≡ returned (
          some (s.data_ptr + get_or s.free_pool 0 0 * 1024),
          record s { free_pool = move_array free_pool; busy_pool = move_array sorted_busy },
        )
  unfolding shm_alloc
  shm_alloc_steps le some_free e run =
      let allowed : leb num s.members ≡ true = ground arith in
      rw (allowed, all_free_iff.0 some_free, ap (λ t. t.0) e, ap (λ t. t.1) e, run)

  -- With `num` buffers free, `shm_alloc` returns the address of the lowest free buffer. The `num`
  -- lowest free buffers are then in use beside those that were, the others stay free, both pools
  -- are in order, and nothing but the pools changes.
  pub shm_alloc_lem :
      length stack ≡ s.members
      → num ≤ length free
      → (busy' : List ℕ) × (s' : Asgard) × (shm_alloc stack num s
          ≡ returned (some (s.data_ptr + get_or free 0 0 * 1024), s'))
        × Holds s' (drop num free) busy'
        × Perm busy' (busy ++ take num free)
        × OnlyPools s s'
  shm_alloc_lem scratch le =
      let (f, b, sorted_b, busy', m) =
        handover num free busy s.free_pool s.busy_pool stack s.members h.free_at h.busy_at h.sizes
          scratch (Holds-IsNumber free busy h) h.free_order le in
      let root =
        ap (λ n. s.data_ptr + n * 1024)
          (ap (λ l. get_or l 0 0) h.free_at ∙ get_or-zeros free (length busy) 0) in
      (
        busy',
        record s { free_pool = move_array f; busy_pool = move_array sorted_b },
        shm_alloc_steps (omega (arith, h.sizes)) le m.moves m.sorts
            ∙ ap
                (λ r.
                  returned (
                    some r,
                    record s { free_pool = move_array f; busy_pool = move_array sorted_b },
                  ))
                root,
        record {
          sizes = m.sizes;
          few = h.few;
          free_at = m.from_form;
          busy_at = m.to_form;
          free_order = m.left_order;
          busy_order = m.taken_order;
          all = Perm.trans m.all h.all;
        },
        m.taken,
        refl,
      )
