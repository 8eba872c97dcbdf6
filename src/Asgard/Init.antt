-- ===== src/Asgard/Init.antt =====
-- `init_memory` and `asgard_init`: the state in which the producer starts.
use mathlib.Core.Path.{subst}
use mathlib.Core.List.Perm
use spsc.Prelude.{
  ℕ, zero, suc, ◌+◌, ◌-◌, ◌*◌, ◌/◌, ◌≤◌, ◌<◌, ◌≡◌, refl, ap, sym, ◌∙◌, none, List, [], ◌∷◌, ◌++◌,
  arith, length, length-append, set-append, append-nil, append_assoc, All, IsSorted, returned,
  assertion_failed,
}
use spsc.Asgard.{
  Ms, SharedMemory, Asgard, MRole, m_jane, init_memory, minit, fill_free_pool, buffer_init,
  asgard_init, zeroed_asgard,
}
use spsc.Asgard.Transfer.{zeros}
use spsc.Asgard.Pools.{numbers, Holds}

fill_free_pool_lem :
    (rounds i : ℕ) (done : List ℕ)
    → i ≡ length done
    → fill_free_pool rounds i (done ++ zeros rounds) ≡ done ++ numbers rounds (i + 1)
unfolding fill_free_pool
fill_free_pool_lem zero i done e = refl
fill_free_pool_lem (suc rounds) i done e =
    rw
      (
        set-append done (zeros rounds) 0 i (i + 1) e,
        ← append_assoc done ((i + 1) ∷ []) (zeros rounds),
      )
      (fill_free_pool_lem rounds (i + 1) (done ++ (i + 1) ∷ [])
          (omega (arith, length-append done ((i + 1) ∷ [])))
        ∙ append_assoc done ((i + 1) ∷ []) (numbers rounds (i + 1 + 1)))

pub length-numbers : (n i : ℕ) → length (numbers n i) ≡ n
length-numbers zero i = refl
length-numbers (suc n) i = ap suc (length-numbers n (i + 1))

numbers_above : (n i k : ℕ) → k ≤ i → All (λ y. k ≤ y) (numbers n i)
numbers_above zero i k h = tt
numbers_above (suc n) i k h = (h, numbers_above n (i + 1) k (omega arith))

pub numbers-IsSorted : (n i : ℕ) → IsSorted (numbers n i)
numbers-IsSorted zero i = tt
numbers-IsSorted (suc n) i = (numbers_above n (i + 1) i (omega arith), numbers-IsSorted n (i + 1))

sz-init_memory :
    (buffers : ℕ) {ms : Ms}
    → init_memory buffers ≡ returned ms
    → (ms.sz ≡ buffers * 1024 + 1024) × (buffers < 2097152)
unfolding init_memory
sz-init_memory buffers h = ground arith

free_pool-buffer_init :
    (s : Asgard) (n : ℕ)
    → s.ms.sz ≡ n * 1024 + 1024
    → let s' = buffer_init s in
      (s'.members ≡ n) × (s'.free_pool ≡ numbers n 1) × (s'.busy_pool ≡ zeros n)
unfolding buffer_init
free_pool-buffer_init s n e =
    let members : s.ms.sz / 1024 - 1 ≡ n = omega arith in
    rw members (refl, fill_free_pool_lem n 0 [] refl, refl)

buffer_init-Holds :
    (s : Asgard) (n : ℕ)
    → s.ms.sz ≡ n * 1024 + 1024
    → n < 2097152
    → Holds (buffer_init s) (numbers n 1) []
buffer_init-Holds s n e few =
    let (members, free_pool, busy_pool) = free_pool-buffer_init s n e in
    record {
      sizes = omega (arith, length-numbers n 1, members);
      few = omega (arith, members);
      free_at = free_pool ∙ sym (append-nil (numbers n 1));
      busy_at = busy_pool ∙ ap zeros (sym (length-numbers n 1));
      free_order = numbers-IsSorted n 1;
      busy_order = tt;
      all = rw (append-nil (numbers n 1), members) Perm.rfl;
    }

sz-minit : (os : SharedMemory) (ms : Ms) → (minit os ms).1.sz ≡ ms.sz
unfolding minit
sz-minit os ms = ground arith

-- the state that `asgard_init` hands to `buffer_init`
abbrev attached : SharedMemory → Ms → Asgard
attached os ms = record (zeroed_asgard (minit os ms).1) { data_ptr = (minit os ms).1.shm }

asgard_init_jane :
    (os : SharedMemory) (ms : Ms) {s : Asgard}
    → asgard_init os ms m_jane ≡ returned s
    → s ≡ buffer_init (attached os ms)
unfolding asgard_init
asgard_init_jane os ms run = ground arith

ms-buffer_init : (s : Asgard) → (buffer_init s).ms ≡ s.ms
unfolding buffer_init
ms-buffer_init s = refl

-- Where the producer's start succeeds, the buffers 1 to `buffers` are free and none is in use, there
-- are `buffers` members, and the last buffer ends where the segment ends.
pub asgard_init-Holds :
    (os : SharedMemory) (buffers : ℕ) {ms : Ms} {s : Asgard}
    → init_memory buffers ≡ returned ms
    → asgard_init os ms m_jane ≡ returned s
    → Holds s (numbers buffers 1) []
      × (s.members ≡ buffers)
      × (s.data_ptr + (buffers + 1) * 1024 ≡ s.data_ptr + s.ms.sz)
unfolding asgard_init
asgard_init-Holds os buffers {ms} {s} h run =
    let (sz, few) = sz-init_memory buffers h in
    let t = attached os ms in
    let size : t.ms.sz ≡ buffers * 1024 + 1024 = sz-minit os ms ∙ sz in
    let total = ap (λ a. a.sz) (ms-buffer_init t) ∙ size in
    subst
      (λ a.
        Holds a (numbers buffers 1) []
        × (a.members ≡ buffers)
        × (a.data_ptr + (buffers + 1) * 1024 ≡ a.data_ptr + a.ms.sz))
      (sym (asgard_init_jane os ms run))
      (
        buffer_init-Holds t buffers size few,
        (free_pool-buffer_init t buffers size).0,
        omega (arith, total),
      )

minit_refused :
    (os : SharedMemory) (ms : Ms) → os.shmget ms.key ms.sz ≡ none → minit os ms ≡ (1, ms)
unfolding minit
minit_refused os ms e = rw (e, minit)

-- Where `shmget` fails, `asgard_init` stops at its assertion in either role.
pub asgard_init_refused :
    (os : SharedMemory) (ms : Ms) (role : MRole)
    → os.shmget ms.key ms.sz ≡ none
    → asgard_init os ms role ≡ assertion_failed
unfolding asgard_init
asgard_init_refused os ms role e = ground (arith, minit_refused os ms e)
