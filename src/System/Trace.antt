-- ===== src/System/Trace.antt =====
-- What the consumer gets to see of a run of `client_loop`.
use spsc.Prelude.{
  ℕ, suc, ◌+◌, ◌*◌, ◌==◌, Bool, true, false, not, List, [], ◌∷◌, ◌++◌, if◌then◌else◌, Run, returned,
  ◌>>=◌,
}
use spsc.Outside.{Outside}
use spsc.Jane.{prepare, message}
use spsc.System.{World, Event, exchanged, interfered, answer_lost, send_failed, early, exchange}

-- of one message: the pieces in which it comes, and the segment when it is checked, when the bytes are
-- written, and when they are searched
pub record Seen : Type 0 where
  pub pieces : List (List ℕ)
  pub checked : List ℕ
  pub written : List ℕ
  pub searched : List ℕ

abbrev pub see : Event → List ℕ → List ℕ → Seen
see (exchanged loki loki' to_thor to_jane) sent segment = record {
  pieces = to_thor sent;
  checked = loki segment;
  written = loki' (loki segment);
  searched = loki' (loki segment);
}
see (interfered first loki loki' last to_thor to_jane) sent segment = record {
  pieces = to_thor sent;
  checked = loki segment;
  written = loki' (loki segment);
  searched = last (loki' (loki segment));
}
see (answer_lost to_thor) sent segment = record {
  pieces = to_thor sent;
  checked = segment;
  written = segment;
  searched = segment;
}
see send_failed sent segment = record {
  pieces = [];
  checked = segment;
  written = segment;
  searched = segment;
}

-- The rounds of `run`, with what is seen of each.
unfoldable pub trace : Outside → ℕ → List Event → ℕ → World → Run (Bool × List Seen × World)
trace o use_buffers [] n w = returned (true, [], w)
trace o use_buffers (event ∷ events) n w = do
  (more, shm_buffer, jane, segment) ← prepare o n use_buffers (early event) w.jane w.segment
  let w' = record w { jane = jane; segment = segment }
  if not more then returned (false, [], w') else do
    w'' ← exchange o n shm_buffer w' event
    (more', seen, end) ← trace o use_buffers events (suc n) w''
    returned (more', see event (message o shm_buffer jane) segment ∷ seen, end)

-- all the pieces
abbrev pub arrived : List Seen → List (List ℕ)
arrived [] = []
arrived (s ∷ seen) = s.pieces ++ arrived seen

-- the segment at the times at which `connection` reads it, from the `n`-th text on
unfoldable pub timeline : List Seen → ℕ → ℕ → List ℕ
timeline [] n t = []
timeline (s ∷ seen) n t =
    let rest = timeline seen (suc n) t in
    if t == 3 * n
    then s.checked
    else if t == 3 * n + 1
    then s.written
    else if t == 3 * n + 2
    then s.searched
    else rest
