-- ===== src/Queue/Tests.antt =====
-- Runs of q.c, among them the program's own test `T2`.
use mathlib.Core.Equiv.{IsEquiv}
use spsc.Prelude.{
  ℕ, ◌≡◌, refl, true, false, none, some, List, [], ◌∷◌, arith, codes, Run, returned,
  assertion_failed, exited, undefined,
}
use spsc.Queue.{Queue, Elem, q_init, q_add, q_remove, add_counter}
use spsc.Queue.Fifo.{Call, add, remove, added, removed, Reply, serve, run, fifo_run}
use spsc.Queue.Refine.{Holds, forward, q_init-refines}
use spsc.Queue.View.{contents, contents-IsEquiv}
use spsc.Queue.Print.{print_elem, print_from, print_q}
use spsc.Queue.Filled.{after, print_q_returns}
use spsc.Queue.Programs.{program}
use spsc.Examples.{print_width}

Returns : Run (List ℕ) → Type 0
Returns (returned printed) = Unit {0}
Returns assertion_failed = ⊥
Returns exited = ⊥
Returns undefined = ⊥

abbrev elem : ℕ → ℕ → Elem
elem line sz = record { sz = sz; line = line }

abbrev single : Queue
single = record { max_size = 1; curr_size = 0; head = 0; tail = 0; e = none ∷ [] }

-- the calls of `T2`, with the texts as the numbers 1 to 5
abbrev t2_calls : List Call
t2_calls = add 1 5 ∷ add 2 10 ∷ add 3 15 ∷ remove ∷ add 4 20 ∷ add 5 25 ∷ remove ∷ remove ∷ []

abbrev t2_replies : List Reply
t2_replies =
    added true
    ∷ added false
    ∷ added false
    ∷ removed (some (elem 1 5))
    ∷ added true
    ∷ added false
    ∷ removed (some (elem 4 20))
    ∷ removed none
    ∷ []

t2_calls_test : run single t2_calls ≡ t2_replies
unfolding run serve q_add q_remove add_counter
t2_calls_test = refl

-- the texts of the literals, and numbers printed with two digits
abbrev text_at : ℕ → List ℕ
text_at line = codes "text"

program_test : Returns (program (print_width 2) text_at)
unfolding Returns program q_init q_add q_remove add_counter print_q
program_test = tt

-- two slots: 7 went in and out, then 8 and 9 came, the second round the end of the array
abbrev wrapped : Queue
wrapped = record {
  max_size = 2;
  curr_size = 2;
  head = 1;
  tail = 1;
  e = some (elem 9 3) ∷ some (elem 8 2) ∷ [];
}

wrapped-Holds : Holds wrapped (elem 8 2 ∷ elem 9 3 ∷ [])
unfolding forward add_counter
wrapped-Holds = record {
  slots = refl;
  tail_in = omega arith;
  size = refl;
  fits = omega arith;
  next_free = refl;
  window = (refl, (refl, tt));
}

-- After `b` came for `a` in a ring of two slots, the one element is `b`, and `print_q` prints `a`.
abbrev moved : Queue
moved = record {
  max_size = 2;
  curr_size = 1;
  head = 0;
  tail = 1;
  e = some (elem 8 3) ∷ some (elem 9 3) ∷ [];
}

moved-Holds : Holds moved (elem 9 3 ∷ [])
unfolding forward add_counter
moved-Holds = record {
  slots = refl;
  tail_in = omega arith;
  size = refl;
  fits = omega arith;
  next_free = refl;
  window = (refl, tt);
}

moved_printed :
    print_from (print_width 2) text_at 1 0 moved.e
    ≡ returned (print_elem (print_width 2) text_at 0 (elem 8 3))
unfolding print_from print_elem
moved_printed = refl

q_init-refines_example : run single t2_calls ≡ fifo_run 1 [] t2_calls
q_init-refines_example = q_init-refines 1 t2_calls (unfold q_init in refl)

print_q_returns_example :
    (printed : List ℕ) × (print_q (print_width 2) text_at (after single t2_calls)
      ≡ returned printed)
print_q_returns_example = print_q_returns (print_width 2) text_at 1 t2_calls (unfold q_init in refl)

contents-IsEquiv_example : IsEquiv (contents 3)
contents-IsEquiv_example = contents-IsEquiv 3 (omega arith)
