-- ===== src/System.antt =====
-- jane.c and thor.c together: what one round of `client_loop` does to both programs, the segment and
-- the output file, when the network and a third party behave as an event says. Loki is one who writes
-- into the segment.
pub mod Text
pub mod Ready
pub mod Prepare
pub mod Exchange
pub mod Round
pub mod Transfer
pub mod Main
pub mod Lost
pub mod Oversize
pub mod Guard
pub mod Finish
pub mod Lossy
pub mod Resend
pub mod Safe
pub mod Failed
pub mod Stuck
pub mod Trace
pub mod Passing
pub mod Connection
pub mod Session
mod Tests
use spsc.Prelude.{
  ℕ, zero, suc, ◌+◌, Bool, true, false, not, Option, none, some, List, [], ◌∷◌, ◌++◌, if◌then◌else◌,
  Run, returned, ◌>>=◌, ◌>>◌,
}
use spsc.Outside.{Outside}
use spsc.Frame.{client_socket_rcv, done_trans}
use spsc.Jane.{Jane, prepare, message, on_reply}
use spsc.Thor.{Thor, serve}

pub record World : Type 0 where
  pub jane : Jane
  pub thor : Thor
  pub segment : List ℕ

-- how a message comes out of the network
abbrev pub Cut : Type 0
Cut = List ℕ → List (List ℕ)

-- A round in which Loki writes before the check of the digest, and once more after it, and both
-- messages pass; one in which he writes before the digest is made as well, and between the output and
-- the search; one in which the answer is lost; and one in which `client_socket_send` fails. After
-- the last two `client_loop` connects anew.
pub data Event : Type 0 where
  exchanged : (List ℕ → List ℕ) → (List ℕ → List ℕ) → Cut → Cut → Event
  interfered :
      (List ℕ → List ℕ)
      → (List ℕ → List ℕ)
      → (List ℕ → List ℕ)
      → (List ℕ → List ℕ)
      → Cut
      → Cut
      → Event
  answer_lost : Cut → Event
  send_failed : Event

-- what Loki makes of the segment between `fread` and `readable_hash`
abbrev pub early : Event → List ℕ → List ℕ
early (exchanged loki loki' to_thor to_jane) segment = segment
early (interfered first loki loki' last to_thor to_jane) segment = first segment
early (answer_lost to_thor) segment = segment
early send_failed segment = segment

-- what comes back to the producer; without an answer the connection is closed
abbrev pub come_back : Cut → Option (List ℕ) → List (List ℕ)
come_back cut none = []
come_back cut (some answer) = cut answer

-- Both messages pass; the segment is `segment` at the check, `later` at the output and `latest` at
-- the search.
unfoldable pub pass : Outside → ℕ → ℕ → World → List ℕ → List ℕ → List ℕ → Cut → Cut → Run World
pass o n shm_buffer w segment later latest to_thor to_jane = do
  (answer, thor, rest) ←
      serve o n (to_thor (message o shm_buffer w.jane)) w.thor segment later latest
  (got, rest') ← client_socket_rcv (come_back to_jane answer)
  returned (record { jane = on_reply got w.jane; thor = thor; segment = latest })

-- The round from `client_socket_send` on.
unfoldable pub exchange : Outside → ℕ → ℕ → World → Event → Run World
exchange o n shm_buffer w (exchanged loki loki' to_thor to_jane) =
    let segment = loki w.segment in
    let later = loki' segment in pass o n shm_buffer w segment later later to_thor to_jane
exchange o n shm_buffer w (interfered first loki loki' last to_thor to_jane) =
    let segment = loki w.segment in
    let later = loki' segment in pass o n shm_buffer w segment later (last later) to_thor to_jane
exchange o n shm_buffer w (answer_lost to_thor) = do
  (answer, thor, rest) ←
      serve o n (to_thor (message o shm_buffer w.jane)) w.thor w.segment w.segment w.segment
  returned (record w { jane = on_reply none w.jane; thor = thor })
exchange o n shm_buffer w send_failed = returned (record w { jane = on_reply none w.jane })

-- The `n`-th round, and whether the loop goes on.
unfoldable pub round : Outside → ℕ → ℕ → World → Event → Run (Bool × World)
round o use_buffers n w event = do
  (more, shm_buffer, jane, segment) ← prepare o n use_buffers (early event) w.jane w.segment
  let w' = record w { jane = jane; segment = segment }
  if not more
      then returned (false, w')
      else (exchange o n shm_buffer w' event >>= λ w''. returned (true, w''))

-- The loop from the `n`-th round on, for as many rounds as there are events: whether it is still
-- going on, and what has become of the world.
unfoldable pub run : Outside → ℕ → List Event → ℕ → World → Run (Bool × World)
run o use_buffers [] n w = returned (true, w)
run o use_buffers (event ∷ events) n w = do
  (more, w') ← round o use_buffers n w event
  let next = run o use_buffers events (suc n) w'
  if more then next else returned (false, w')

-- What `client_loop` sends after its last round, and what the consumer makes of it.
unfoldable pub finish : Outside → ℕ → Cut → World → Run (Option (List ℕ) × Thor × List (List ℕ))
finish o n to_thor w =
    serve o n (to_thor (done_trans ++ 0 ∷ [])) w.thor w.segment w.segment w.segment
