-- ===== src/Queue/Fifo.antt =====
-- What the ring of q.c promises: a first-in first-out sequence of at most `max_size` elements.
use spsc.Prelude.{
  ℕ, Bool, true, false, Option, none, some, List, [], ◌∷◌, ◌++◌, ◌==◌, length, if◌then◌else◌,
}
use spsc.Queue.{Elem, Queue, q_add, q_remove}

-- a call of a client, and what the client sees of it
pub data Call : Type 0 where
  add : ℕ → ℕ → Call
  remove : Call

pub data Reply : Type 0 where
  added : Bool → Reply
  removed : Option Elem → Reply

unfoldable pub serve : Queue → Call → Reply × Queue
serve q (add line sz) = let (done, q') = q_add q line sz in (added done, q')
serve q remove = let (out, q') = q_remove q in (removed out, q')

unfoldable pub run : Queue → List Call → List Reply
run q [] = []
run q (c ∷ calls) = let (r, q') = serve q c in r ∷ run q' calls

unfoldable pub fifo_serve : ℕ → List Elem → Call → Reply × List Elem
fifo_serve cap xs (add line sz) =
    if length xs == cap
    then (added false, xs)
    else (added true, xs ++ record { sz = sz; line = line } ∷ [])
fifo_serve cap [] remove = (removed none, [])
fifo_serve cap (x ∷ xs) remove = (removed (some x), xs)

unfoldable pub fifo_run : ℕ → List Elem → List Call → List Reply
fifo_run cap xs [] = []
fifo_run cap xs (c ∷ calls) = let (r, xs') = fifo_serve cap xs c in r ∷ fifo_run cap xs' calls
