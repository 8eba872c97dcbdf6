-- ===== src/System/Safe.antt =====
-- Runs on a network that may lose any end of any message, with Loki before the checks.
use spsc.Prelude.{ℕ, ◌≡◌, Bool, List, [], ◌++◌, length, take, drop, returned}
use spsc.Outside.{Outside}
use spsc.Asgard.{Asgard}
use spsc.Thor.{Thor}
use spsc.Thor.Replies.{scanned}
use spsc.System.{World, Event, run}
use spsc.System.Ready.{Start, Ready, count}

-- What may have been written of a file that is sent in pieces of `c` bytes: in place of a piece, one
-- with the same length and the same digest, once, several times or not at all.
pub data Writes (o : Outside) (c : ℕ) : List ℕ → List ℕ → Type 0 where
  ended : (unread : List ℕ) → Writes o c unread []
  passed :
      (unread bytes out : List ℕ)
      → o.md5 bytes ≡ o.md5 (take c unread)
      → length bytes ≡ length (take c unread)
      → Writes o c unread out
      → Writes o c unread (bytes ++ out)
  next : (unread out : List ℕ) → Writes o c (drop c unread) out → Writes o c unread out

-- what stands in the output file, and has been searched, behind what was there before
abbrev Added : List ℕ → Thor → Thor → Type 0
Added out thor thor' =
    (thor'.output_file ≡ thor.output_file ++ out)
    × (thor'.substring_context ≡ scanned out thor.substring_context)

module _ (o : Outside) (m : ℕ) (idle : Asgard) (u : ℕ) (st : Start o m idle u) where
  -- the run, where it has come to, and what it has written
  abbrev Runs : List Event → ℕ → World → List ℕ → Type 0
  Runs events n w unread =
      (more : Bool) × (w' : World) × (out : List ℕ) × (run o u events n w ≡ returned (more, w'))
      × Added out w.thor w'.thor
      × Writes o (count o m idle u st) unread out
