-- ===== src/Threaded.antt =====
-- jane.c between `#ifdef threaded`, which no build defines: a thread reads buffers of the file ahead into
-- the ring of q.c, and `get_ready_buffer` waits for one of them. A step of the model is one atomic
-- action of one of the two threads on the lock, or all that it does between `lock` and `unlock`, and a
-- schedule says whose turn it is. What these lines use without a declaration is taken for what the
-- rest of the file has in its place: `shm_buffer` for a local, and `queue_init` for `q_init`.
pub mod Waits
mod Tests
use spsc.Prelude.{
  ℕ, suc, Bool, true, false, Option, List, [], ◌∷◌, if◌then◌else◌, Run, returned, given, check,
  ◌>>=◌, ◌>>◌,
}
use spsc.Outside.{Outside}
use spsc.Asgard.{shm_alloc}
use spsc.Queue.{Elem, Queue, q_init, q_full, q_add, q_empty, q_remove}
use spsc.Lock.{Place, outside, testing, spinning, inside, turn}
use spsc.Jane.{Jane, read_input_file}

abbrev pub parallel_buffers : ℕ
parallel_buffers = 1

-- the thread of `keep_buffers_ready`, or that it has returned
pub data Reader : Type 0 where
  reading : Place → Reader
  gone : Reader

-- the thread that calls `get_ready_buffer`, or what the call has returned
pub data Client : Type 0 where
  asking : Place → Client
  got : Option Elem → Client

-- the globals, the segment, `llen` of `keep_buffers_ready`, and the two threads
pub record Threads : Type 0 where
  pub qlock : ℕ
  pub q : Queue
  pub jane : Jane
  pub segment : List ℕ
  pub llen : ℕ
  pub reader : Reader
  pub client : Client

-- before the first step; `llen` is not initialised
unfoldable pub started : Jane → List ℕ → ℕ → Run Threads
started jane segment llen = do
  q ← given (q_init parallel_buffers)
  returned (record {
    qlock = 0;
    q = q;
    jane = jane;
    segment = segment;
    llen = llen;
    reader = reading outside;
    client = asking outside;
  })

-- whose turn it is
pub data Turn : Type 0 where
  reads asks : Turn

-- an action on the lock
abbrev pub reader_waits : Place → Threads → Threads
reader_waits p w =
    let after = turn p w.qlock in record w { reader = reading (after.0); qlock = after.1 }

abbrev pub client_waits : Place → Threads → Threads
client_waits p w =
    let after = turn p w.qlock in record w { client = asking (after.0); qlock = after.1 }

-- The body of the loop of `get_ready_buffer`.
unfoldable pub client_turn : Client → Threads → Threads
client_turn (asking inside) w =
    let (e, q) = q_remove w.q in
    if q_empty w.q then client_waits inside w else record w { qlock = 0; q = q; client = got e }
client_turn (asking outside) w = client_waits outside w
client_turn (asking testing) w = client_waits testing w
client_turn (asking spinning) w = client_waits spinning w
client_turn (got e) w = w

module _ (o : Outside) (use_buffers : ℕ) where
  -- The body of the loop of `keep_buffers_ready`, the `n`-th step of all, with the lock held: whether the
  -- function returns.
  unfoldable pub keep_buffers_ready : ℕ → Threads → Run (Bool × Threads)
  keep_buffers_ready n w = if q_full w.q then returned (false, w) else do
    let jane = w.jane
    (buffer, asgard) ← shm_alloc (o.stack n) use_buffers jane.asgard
    shm_buffer ← given buffer
    (finished_reading, jane', segment) ←
        read_input_file o use_buffers shm_buffer (record jane { asgard = asgard; llen = w.llen })
          w.segment
    let w' = record w {
      jane = record jane' { llen = jane.llen };
      segment = segment;
      llen = jane'.llen;
    }
    if finished_reading then returned (true, w') else do
      let (added, q) = q_add w.q shm_buffer jane'.llen
      check added
      returned (false, record w' { q = q })

  -- After a return the lock is as it was.
  abbrev pub leaves : Bool × Threads → Threads
  leaves (true, w) = record w { reader = gone }
  leaves (false, w) = reader_waits inside w

  unfoldable pub reader_turn : ℕ → Reader → Threads → Run Threads
  reader_turn n (reading inside) w = keep_buffers_ready n w >>= λ after. returned (leaves after)
  reader_turn n (reading outside) w = returned (reader_waits outside w)
  reader_turn n (reading testing) w = returned (reader_waits testing w)
  reader_turn n (reading spinning) w = returned (reader_waits spinning w)
  reader_turn n gone w = returned w

  unfoldable pub run : List Turn → ℕ → Threads → Run Threads
  run [] n w = returned w
  run (reads ∷ schedule) n w = reader_turn n w.reader w >>= run schedule (suc n)
  run (asks ∷ schedule) n w = run schedule (suc n) (client_turn w.client w)
