-- ===== src/Asgard.antt =====
-- asgard.c and memory.c: the shared memory segment and its buffers of 1024 bytes. Buffer `n` begins
-- at `data_ptr + n * 1024`; the buffers that can be handed out are 1 to `members`. Addresses are
-- numbers. The globals `asgard`, `members`, `free_pool` and `busy_pool` are one record.
pub mod Transfer
pub mod Pools
pub mod Handover
pub mod Alloc
pub mod Dealloc
pub mod Leaks
pub mod Reach
pub mod Cycle
pub mod Init
pub mod Programs
mod Tests
use spsc.Prelude.{
  ℕ, zero, suc, ◌+◌, ◌-◌, ◌*◌, ◌/◌, Bool, true, false, not, Option, none, some, List, [], ◌∷◌, ℤ,
  pos, negsuc, leb, ltb, ◌==◌, if◌then◌else◌, get_or, set, replicate, Run, returned,
  assertion_failed, undefined, ◌>>=◌, ◌>>◌, check,
}
use spsc.Radix.{
  Outcome, sorted, int_overflow, out_of_fuel, int_max, radix_sort, move_array, binary_search,
}

-- `MRole`
pub data MRole : Type 0 where
  m_jane m_thor : MRole

-- `Ms`, without `role`, which nothing reads
pub record Ms : Type 0 where
  pub sz : ℕ
  pub pattern : ℕ
  pub key : ℕ
  pub shm : ℕ
  pub shmid : ℕ

-- `Buffer`
pub record Buffer : Type 0 where
  pub array : ℕ
  pub busy : Bool

pub record Asgard : Type 0 where
  pub data_ptr : ℕ
  pub ms : Ms
  pub buffers : List Buffer
  pub members : ℕ
  pub free_pool : List ℕ
  pub busy_pool : List ℕ

-- `*memorys` after the call; the size is computed in `int`.
unfoldable pub init_memory : ℕ → Run Ms
init_memory buffers =
    if ltb int_max (buffers * 1024 + 1024)
    then undefined
    else returned (record {
      sz = buffers * 1024 + 1024;
      pattern = 0xdead_beef;
      key = 5678;
      shm = 0;
      shmid = 0;
    })

-- System V shared memory: `shmget key size` and `shmat shmid`, with `none` for a failure
pub record SharedMemory : Type 0 where
  pub shmget : ℕ → ℕ → Option ℕ
  pub shmat : ℕ → Option ℕ

-- The code that `minit` returns, and `*ms` afterwards.
unfoldable pub minit : SharedMemory → Ms → ℕ × Ms
minit os ms = elim (os.shmget ms.key ms.sz) [
  | none ↦ (1, ms)
  | some id ↦ elim (os.shmat id) [
    | none ↦ (2, record ms { shmid = id })
    | some shm ↦ (0, record ms { shmid = id; shm = shm })
  ]
]

-- `for (i = 0; i < members; i++) free_pool[i] = i + 1;`, with the rounds left
unfoldable pub fill_free_pool : ℕ → ℕ → List ℕ → List ℕ
fill_free_pool zero i free_pool = free_pool
fill_free_pool (suc rounds) i free_pool = fill_free_pool rounds (i + 1) (set free_pool i (i + 1))

-- `for (i = 0; i < members; i++)` sets `buffers[i]`.
unfoldable pub fill_buffers : ℕ → ℕ → ℕ → List Buffer → List Buffer
fill_buffers zero i temp buffers = buffers
fill_buffers (suc rounds) i temp buffers =
    fill_buffers rounds (i + 1) temp
      (set buffers i (record { array = temp + i * 1024; busy = false }))

unfoldable pub free_pool_init : Asgard → Asgard
unfolding fill_free_pool
free_pool_init s = record s {
  free_pool = fill_free_pool s.members 0 (replicate s.members 0);
  busy_pool = replicate s.members 0;
}

unfoldable pub buffer_init : Asgard → Asgard
unfolding free_pool_init fill_buffers
buffer_init s =
    let members = s.ms.sz / 1024 - 1 in
    let s' = free_pool_init (record s { members = members }) in
    let zeroed : Buffer = record { array = 0; busy = false } in
    record s' { buffers = fill_buffers members 0 s.data_ptr (replicate members zeroed) }

-- the globals before `asgard_init`
abbrev pub zeroed_asgard : Ms → Asgard
zeroed_asgard ms = record {
  data_ptr = 0;
  ms = ms;
  buffers = [];
  members = 0;
  free_pool = [];
  busy_pool = [];
}

unfoldable pub asgard_init : SharedMemory → Ms → MRole → Run Asgard
asgard_init os memorys role = do
  let (code, ms) = minit os memorys
  check (code == 0)
  let s = record (zeroed_asgard ms) { data_ptr = ms.shm }
  returned (elim role [ m_jane ↦ buffer_init s | m_thor ↦ s ])

unfoldable pub get_offset : Asgard → ℕ → ℕ
get_offset s mem = mem - s.data_ptr

unfoldable pub get_buffer : Asgard → ℕ → ℕ
get_buffer s offset = s.data_ptr + offset

-- the first loop of `shm_alloc`: is none of the elements from `i` on zero?
unfoldable pub all_free : ℕ → ℕ → List ℕ → Bool
all_free zero i free_pool = true
all_free (suc rounds) i free_pool =
    let next = all_free rounds (i + 1) free_pool in
    if get_or free_pool i 0 == 0 then false else next

-- `to[members - 1 - i] = from[i]; from[i] = 0;` from `i` on, with the rounds left
unfoldable pub transfer : ℕ → ℕ → ℕ → List ℕ → List ℕ → List ℕ × List ℕ
transfer zero i members from to = (from, to)
transfer (suc rounds) i members from to =
    transfer rounds (i + 1) members (set from i 0) (set to (members - 1 - i) (get_or from i 0))

-- `radix_sort` of a pool, on a stack with the given contents
unfoldable pub sort_pool : List ℕ → List ℕ → Run (List ℕ)
sort_pool pool stack = elim (radix_sort pool stack) [
  | sorted result ↦ returned result
  | int_overflow ↦ undefined
  | out_of_fuel ↦ undefined
]

-- The address, or `NULL`, and the state afterwards.
unfoldable pub shm_alloc : List ℕ → ℕ → Asgard → Run (Option ℕ × Asgard)
shm_alloc stack num s = do
  check (leb num s.members)
  if not (all_free num 0 s.free_pool) then returned (none, s) else do
    let root = s.data_ptr + get_or s.free_pool 0 0 * 1024
    let (free_pool, busy_pool) = transfer num 0 s.members s.free_pool s.busy_pool
    let free_pool' = move_array free_pool
    sorted_busy ← sort_pool busy_pool stack
    let busy_pool' = move_array sorted_busy
    returned (some root, record s { free_pool = free_pool'; busy_pool = busy_pool' })

-- What `binarySearch` returned, as an index; `assert(-1 != binres)`.
abbrev pub found_index : Option ℤ → Run ℕ
found_index none = undefined
found_index (some (pos i)) = returned i
found_index (some (negsuc n)) = assertion_failed

-- For `mem` at or behind `data_ptr`. With more than `members` the loop leaves the pools.
unfoldable pub shm_dealloc : List ℕ → ℕ → ℕ → Asgard → Run Asgard
shm_dealloc stack num mem s = do
  let n = (mem - s.data_ptr) / 1024
  binres ← found_index (binary_search s.busy_pool 0 s.members n)
  if ltb s.members num then undefined else do
    let (busy_pool, free_pool) = transfer (num - binres) binres s.members s.busy_pool s.free_pool
    sorted_free ← sort_pool free_pool stack
    let free_pool' = move_array sorted_free
    returned (record s { free_pool = free_pool'; busy_pool = move_array busy_pool })
