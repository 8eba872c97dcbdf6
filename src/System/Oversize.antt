-- ===== src/System/Oversize.antt =====
-- A round of jane.c with USE_BUFFERS 0.
use spsc.Prelude.{
  ℕ, suc, ◌+◌, ◌-◌, ◌*◌, ◌^◌, ◌<◌, ◌≡◌, refl, ap, ◌∙◌, arith, false, some, List, [], ◌∷◌, leb,
  length, take, take_all, returned, undefined,
}
use spsc.Outside.{Outside, Documented}
use spsc.Asgard.{Asgard, shm_alloc}
use spsc.Asgard.Pools.{Holds, numbers}
use spsc.Asgard.Init.{length-numbers}
use spsc.Asgard.Alloc.{shm_alloc_lem}
use spsc.Segment.{store}
use spsc.Jane.{Jane, acquire, refill, prepare, take_back, opened, read_count, read_input_file}
use spsc.System.{World, Event, round, run}

module _ (o : Outside) (m : ℕ) (idle : Asgard) (doc : Documented o (suc m))
    (holds : Holds idle (numbers (suc m) 1) []) where
  abbrev buffer : ℕ
  buffer = idle.data_ptr + 1024

  -- the allocation of no buffer
  allocated_none :
      (i : ℕ)
      → (s : Asgard) × (shm_alloc (o.stack i) 0 idle ≡ returned (some buffer, s))
        × (s.data_ptr ≡ idle.data_ptr)
  allocated_none i =
      let size : length (numbers (suc m) 1) ≡ suc m = length-numbers (suc m) 1 in
      let (busy, s, ran, held, taken, only) =
        shm_alloc_lem (o.stack i) (numbers (suc m) 1) [] 0 holds
          (doc.length-stack i ∙ omega (arith, holds.sizes, size)) (omega arith) in
      (s, ran, ap (λ a. a.data_ptr) only)

  full_count : read_count 0 ≡ 2 ^ 64 - 1
  unfolding read_count
  full_count = omega arith

  store_past :
      (at : ℕ) (bytes segment : List ℕ)
      → length segment < at + length bytes
      → store at bytes segment ≡ undefined
  unfolding store
  store_past at bytes segment h =
      let past : leb (at + length bytes) (length segment) ≡ false = ground arith in rw past refl

  read_past :
      (jane : Jane) (segment name unread : List ℕ)
      → jane.asgard.data_ptr ≡ idle.data_ptr
      → jane.input_file ≡ some name
      → opened o name jane.input_file_ptr ≡ returned unread
      → length segment < 1024 + length unread
      → 0 < length unread
      → length unread < 2 ^ 64
      → read_input_file o 0 buffer jane segment ≡ undefined
  unfolding read_input_file
  read_past jane segment name [] at file position long left fits = absurd (omega (arith, left))
  read_past jane segment name (x ∷ xs) at file position long left fits =
      let place : buffer - jane.asgard.data_ptr ≡ 1024 = omega (arith, at) in
      let whole : take (read_count 0) (x ∷ xs) ≡ x ∷ xs =
        take_all (read_count 0) (x ∷ xs) (omega (arith, full_count, fits)) in
      rw (file, position, whole, place, store_past 1024 (x ∷ xs) segment (omega (arith, long))) refl

  -- With USE_BUFFERS 0, before a round, with all buffers free once the last one is given back, and
  -- no failure before, where the outside does what is documented: when more is left of the file than
  -- fits into the segment behind its first 1,024 bytes, and less than 2^64 bytes, the producer
  -- writes past the end of the segment, whatever the events are, of which there is at least one.
  pub run_overruns :
      (n : ℕ) (w : World) (name unread : List ℕ)
      → take_back (o.stack (2 * n)) 0 w.jane.shm_buffer w.jane.asgard ≡ returned idle
      → w.jane.failed ≡ false
      → w.jane.input_file ≡ some name
      → opened o name w.jane.input_file_ptr ≡ returned unread
      → length w.segment < 1024 + length unread
      → 0 < length unread
      → length unread < 2 ^ 64
      → (event : Event) (events : List Event) → run o 0 (event ∷ events) n w ≡ undefined
  unfolding run round prepare acquire refill
  run_overruns n w name unread free fine file position long left fits event events =
      let (s, ran, at) = allocated_none (2 * n + 1) in
      let jane = w.jane in
      let j : Jane = record jane { asgard = s; shm_buffer = some buffer; failed = false } in
      rw (free, ran, fine, read_past j w.segment name unread at file position long left fits) refl
