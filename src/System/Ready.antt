-- ===== src/System/Ready.antt =====
-- The producer before a round, and before a message.
use spsc.Prelude.{
  ℕ, suc, ◌+◌, ◌-◌, ◌*◌, ◌^◌, ◌≤◌, ◌<◌, ◌≡◌, refl, ap, sym, ◌∙◌, arith, false, some, List, [],
  length, returned, returned-injective, c_string,
}
use spsc.Outside.{Outside, Documented}
use spsc.Asgard.{Asgard, shm_alloc, shm_dealloc}
use spsc.Asgard.Pools.{Holds, numbers}
use spsc.Asgard.Init.{length-numbers}
use spsc.Asgard.Alloc.{shm_alloc_lem}
use spsc.Asgard.Cycle.{shm_alloc-shm_dealloc}
use spsc.Hash.{big_enough}
use spsc.Hash.Print.{hex}
use spsc.Jane.{Jane, acquire, take_back, opened, read_count}

-- What the producer starts from: a segment with `suc m` buffers, all of them free, of which it uses
-- `u` at once.
pub record Start (o : Outside) (m : ℕ) (idle : Asgard) (u : ℕ) : Type 0 where
  pub doc : Documented o (suc m)
  pub holds : Holds idle (numbers (suc m) 1) []
  pub pos_u : 0 < u
  pub fits_u : u ≤ suc m
  pub few : m < 2 ^ 20

module _ (o : Outside) (m : ℕ) (idle : Asgard) (u : ℕ) (st : Start o m idle u) where
  open st use {doc, holds, pos_u, fits_u, few}

  members-idle : idle.members ≡ suc m
  members-idle = omega (arith, holds.sizes, length-numbers (suc m) 1)

  abbrev pub buffer : ℕ
  buffer = idle.data_ptr + 1024

  -- the allocator's round: the first buffers are taken, and can be given back
  pub allocated :
      (i j : ℕ)
      → (s : Asgard) × (shm_alloc (o.stack i) u idle ≡ returned (some buffer, s))
        × (s.data_ptr ≡ idle.data_ptr)
        × (shm_dealloc (o.stack j) u buffer s ≡ returned idle)
  allocated i j =
      let h = doc.length-stack in
      let size : length (numbers (suc m) 1) ≡ suc m = length-numbers (suc m) 1 in
      let (s, run, held, back) =
        shm_alloc-shm_dealloc (o.stack i) (o.stack j) (numbers m (1 + 1)) 1 u holds
          (h i ∙ sym members-idle) (h j ∙ sym members-idle) pos_u (omega (arith, size, fits_u)) in
      let (busy, s', run', held', taken, only) =
        shm_alloc_lem (o.stack i) (numbers (suc m) 1) [] u holds (h i ∙ sym members-idle)
          (omega (arith, size, fits_u)) in
      let same : s ≡ s' = ap (λ r. r.1) (returned-injective (sym run ∙ run')) in
      (s, run, ap (λ a. a.data_ptr) (same ∙ only), back)

  -- before the `n`-th round, with `unread` left of the file, and the last round without a failure
  pub record Ready (n : ℕ) (jane : Jane) (segment unread : List ℕ) : Type 0 where
    pub free : take_back (o.stack (2 * n)) u jane.shm_buffer jane.asgard ≡ returned idle
    pub name : List ℕ
    pub file : jane.input_file ≡ some name
    pub position : opened o name jane.input_file_ptr ≡ returned unread
    pub md5_size : length jane.md5 ≡ big_enough
    pub fine : jane.failed ≡ false
    pub no_ack : jane.doack ≡ false
    pub segment_size : length segment ≡ (suc m + 1) * 1024

  abbrev pub count : ℕ
  count = read_count u

  pub count_lem : count ≡ u * 1024 - 1
  unfolding read_count
  count_lem = omega (arith, fits_u, few, pos_u)

  -- the producer and the segment when `chunk` is about to be sent
  pub record Sending (n : ℕ) (jane : Jane) (segment chunk : List ℕ) : Type 0 where
    pub back : take_back (o.stack (2 * suc n)) u jane.shm_buffer jane.asgard ≡ returned idle
    pub data_ptr : jane.asgard.data_ptr ≡ idle.data_ptr
    pub filled : 0 < length chunk
    pub small : length chunk < u * 1024
    pub segment_size : length segment ≡ (suc m + 1) * 1024
    pub llen : jane.llen ≡ length chunk
    pub digest : c_string jane.md5 ≡ hex (o.md5 chunk)
    pub md5_size : length jane.md5 ≡ big_enough
    pub no_ack : jane.doack ≡ false

  pub acquired :
      (n : ℕ) (jane : Jane)
      → take_back (o.stack (2 * n)) u jane.shm_buffer jane.asgard ≡ returned idle
      → (s : Asgard) × (acquire o n u jane
          ≡ returned (buffer, record jane { asgard = s; shm_buffer = some buffer }))
        × (s.data_ptr ≡ idle.data_ptr)
        × (shm_dealloc (o.stack (2 * suc n)) u buffer s ≡ returned idle)
  unfolding acquire
  acquired n jane free =
      let (s, run, at, back) = allocated (2 * n + 1) (2 * suc n) in
      (s, rw (free, run) refl, at, back)

  -- Where the message has passed, the producer is ready for the next round.
  pub Ready-again :
      (n : ℕ) (jane : Jane) (segment segment' chunk name unread : List ℕ)
      → Sending n jane segment chunk
      → length segment' ≡ (suc m + 1) * 1024
      → jane.failed ≡ false
      → jane.input_file ≡ some name
      → jane.input_file_ptr ≡ some unread
      → Ready (suc n) jane segment' unread
  Ready-again n jane segment segment' chunk name unread s size fine file ptr = record {
    free = s.back;
    name = name;
    file = file;
    position = ap (opened o name) ptr ∙ (unfold opened in refl);
    md5_size = s.md5_size;
    fine = fine;
    no_ack = s.no_ack;
    segment_size = size;
  }
