-- ===== src/Asgard/Tests.antt =====
-- Runs of asgard.c on a segment with three buffers at address 5000.
use mathlib.Core.List.{Perm}
use mathlib.Core.List.Perm
use spsc.Prelude.{◌++◌, codes, replicate, c_string, assertion_failed}
use spsc.Segment.{store, load}
use spsc.Asgard.Programs.{write_letters, test_write, test_read, test_main}
use spsc.Prelude.{false, ℕ, ◌+◌, ◌≡◌, refl, none, some, List, [], ◌∷◌, arith, returned, ◌>>=◌}
use spsc.Radix.{
  radix_sort, radix_loop, place_all, count_digits, accumulate, fill, copy, move_array,
  binary_search,
}
use spsc.Asgard.{
  Ms, Asgard, SharedMemory, m_jane, init_memory, minit, buffer_init, asgard_init, all_free,
  transfer, sort_pool, shm_alloc, shm_dealloc,
}
use spsc.Asgard.Pools.{Holds, OnlyPools}
use spsc.Asgard.Alloc.{shm_alloc_lem}
use spsc.Asgard.Dealloc.{shm_dealloc_lem}
use spsc.Asgard.Leaks.{shm_dealloc_leaks}
use spsc.Asgard.Cycle.{shm_alloc-shm_dealloc}
use spsc.Asgard.Reach.{here, next, allocates, takes_back, Reaches, Reaches-Keeps}
use spsc.Asgard.Init.{asgard_init-Holds}

abbrev os : SharedMemory
os = record { shmget = λ key size. some 9; shmat = λ id. some 5000 }

abbrev broken_os : SharedMemory
broken_os = record { shmget = λ key size. none; shmat = λ id. none }

abbrev ms : Ms
ms = record { sz = 4096; pattern = 0xdead_beef; key = 5678; shm = 0; shmid = 0 }

abbrev stack : List ℕ
stack = 0 ∷ 0 ∷ 0 ∷ []

abbrev pools : List ℕ → List ℕ → Asgard
pools free busy = record {
  data_ptr = 5000;
  ms = record ms { shm = 5000; shmid = 9 };
  buffers =
      record { array = 5000; busy = false }
      ∷ record { array = 6024; busy = false }
      ∷ record { array = 7048; busy = false }
      ∷ [];
  members = 3;
  free_pool = free;
  busy_pool = busy;
}

abbrev start : Asgard
start = pools (1 ∷ 2 ∷ 3 ∷ []) (0 ∷ 0 ∷ 0 ∷ [])

start_lem : asgard_init os ms m_jane ≡ returned start
unfolding asgard_init minit buffer_init
start_lem = refl

-- Two allocations, and the first buffer taken back: 1 and 3 are free, and an allocation of two
-- buffers gets the address of buffer 1, behind which buffer 2 is in use.
fragmented :
    (do
      (_, s) ← shm_alloc stack 1 start
      (_, s) ← shm_alloc stack 1 s
      s ← shm_dealloc stack 1 6024 s
      shm_alloc stack 2 s)
    ≡ returned (some 6024, pools (0 ∷ 0 ∷ 0 ∷ []) (1 ∷ 2 ∷ 3 ∷ []))
unfolding shm_alloc shm_dealloc all_free transfer sort_pool radix_sort radix_loop place_all
    count_digits accumulate fill copy move_array binary_search
fragmented = refl

-- buffers 1 and 3 in use
abbrev holed : Asgard
holed = pools (2 ∷ 0 ∷ 0 ∷ []) (1 ∷ 3 ∷ 0 ∷ [])

holed-Holds : Holds holed (2 ∷ []) (1 ∷ 3 ∷ [])
holed-Holds = record {
  sizes = refl;
  few = omega arith;
  free_at = refl;
  busy_at = refl;
  free_order = omega arith;
  busy_order = omega arith;
  all = Perm.swap 1 2 (3 ∷ []);
}

start-Holds : Holds start (1 ∷ 2 ∷ 3 ∷ []) []
start-Holds = record {
  sizes = refl;
  few = omega arith;
  free_at = refl;
  busy_at = refl;
  free_order = omega arith;
  busy_order = tt;
  all = Perm.rfl;
}

shm_alloc_lem_example :
    (busy' : List ℕ) × (s' : Asgard) × (shm_alloc stack 1 holed ≡ returned (some 7048, s'))
    × Holds s' [] busy'
    × Perm busy' (1 ∷ 3 ∷ 2 ∷ [])
    × OnlyPools holed s'
shm_alloc_lem_example = shm_alloc_lem stack (2 ∷ []) (1 ∷ 3 ∷ []) 1 holed-Holds refl (omega arith)

shm_dealloc_lem_example :
    (free' : List ℕ) × (s' : Asgard) × (shm_dealloc stack 1 6024 holed ≡ returned s')
    × Holds s' free' (3 ∷ [])
    × Perm free' (2 ∷ 1 ∷ [])
    × OnlyPools holed s'
shm_dealloc_lem_example = shm_dealloc_lem stack (2 ∷ []) 1 (3 ∷ []) 1 holed-Holds refl (omega arith)

-- buffer 3 is taken back, and stays in use
shm_dealloc_leaks_example : shm_dealloc stack 1 8072 holed ≡ returned holed
shm_dealloc_leaks_example =
    shm_dealloc_leaks stack (2 ∷ []) (1 ∷ []) 3 [] 1 holed-Holds (omega arith) refl (omega arith)

shm_alloc-shm_dealloc_example :
    (s' : Asgard) × (shm_alloc stack 2 start ≡ returned (some 6024, s'))
    × Holds s' (3 ∷ []) (1 ∷ 2 ∷ [])
    × (shm_dealloc stack 2 6024 s' ≡ returned start)
shm_alloc-shm_dealloc_example =
    shm_alloc-shm_dealloc stack stack (2 ∷ 3 ∷ []) 1 2 start-Holds refl refl (omega arith)
      (omega arith)

asgard_init-Holds_example :
    Holds start (1 ∷ 2 ∷ 3 ∷ []) []
    × (start.members ≡ 3)
    × (start.data_ptr + 4096 ≡ start.data_ptr + start.ms.sz)
asgard_init-Holds_example = asgard_init-Holds os 3 {ms = ms} (unfold init_memory in refl) start_lem

-- All buffers are in use. Taken back from the second on, two buffers give one, and a gap among those
-- in use; taken back from the third on, three overwrite the free one, and buffer 2 is nowhere.
lost :
    (do
      s ← shm_dealloc stack 2 7048 (pools (0 ∷ 0 ∷ 0 ∷ []) (1 ∷ 2 ∷ 3 ∷ []))
      shm_dealloc stack 3 8072 s)
    ≡ returned (pools (3 ∷ 0 ∷ 0 ∷ []) (1 ∷ 0 ∷ 0 ∷ []))
unfolding shm_dealloc transfer sort_pool radix_sort radix_loop place_all count_digits accumulate
    fill copy move_array binary_search
lost = refl

-- two buffers taken, one more, and the lowest taken back
abbrev taken : Asgard
taken = pools (3 ∷ 0 ∷ 0 ∷ []) (1 ∷ 2 ∷ 0 ∷ [])

abbrev all_taken : Asgard
all_taken = pools (0 ∷ 0 ∷ 0 ∷ []) (1 ∷ 2 ∷ 3 ∷ [])

abbrev given_back : Asgard
given_back = pools (1 ∷ 0 ∷ 0 ∷ []) (2 ∷ 3 ∷ 0 ∷ [])

reached : Reaches start given_back
unfolding shm_alloc shm_dealloc all_free transfer sort_pool radix_sort radix_loop place_all
    count_digits accumulate fill copy move_array binary_search
reached =
    next all_taken given_back
      (next taken all_taken (next start taken here (allocates stack 2 (some 6024) taken refl refl))
        (allocates stack 1 (some 8072) all_taken refl refl))
      (takes_back stack 1 given_back refl (omega arith) refl refl)

Reaches-Keeps_example :
    (free : List ℕ) × (busy : List ℕ) × Holds given_back free busy × OnlyPools start given_back
Reaches-Keeps_example = Reaches-Keeps start (1 ∷ 2 ∷ 3 ∷ []) [] start-Holds reached

-- The letters are written once, and read back up to the zero behind them.
letters_written :
    test_write 1 (replicate 29 0)
    ≡ returned (codes "writing now\n", 42 ∷ (codes "abcdefghijklmnopqrstuvwxyz" ++ 0 ∷ 0 ∷ []))
unfolding test_write write_letters store load
letters_written = refl

letters_read :
    test_read 1 (42 ∷ (codes "abcdefghijklmnopqrstuvwxyz" ++ 0 ∷ 0 ∷ []))
    ≡ returned (codes "str is <abcdefghijklmnopqrstuvwxyz>\n")
unfolding test_read load c_string
letters_read = refl

letters_kept : test_write 1 (42 ∷ 97 ∷ []) ≡ returned (codes "already wrote\n", 42 ∷ 97 ∷ [])
unfolding test_write load
letters_kept = refl

-- A segment that is not attached stops the test program.
not_attached : test_main broken_os [] ≡ assertion_failed
unfolding test_main minit
not_attached = refl
