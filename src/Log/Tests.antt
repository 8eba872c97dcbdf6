-- ===== src/Log/Tests.antt =====
-- Runs of the log: two threads, one with two calls.
use spsc.Prelude.{ℕ, ◌≡◌, refl, List, [], ◌∷◌, codes}
use spsc.Examples.{print_width}
use spsc.Log.{Entry, Thread, between, info, debug, act, act_at, run, due, pieces}
use spsc.Log.Effect.{remaining}
use spsc.Log.Lines.{Whole, run-Lines}

abbrev call : ℕ → List ℕ → Entry
call level text = record {
  level = level;
  date = codes "2024-01-02_03-04-05";
  usec = 7;
  function = codes "main";
  line = 300;
  text = text;
}

abbrev threads : List Thread
threads =
    between (call info (codes "one") ∷ call debug (codes "two") ∷ [])
    ∷ between (call info (codes "three") ∷ [])
    ∷ []

-- The second thread waits while the first prints, and then prints its line; the second call of the
-- first thread has a level that is not shown.
abbrev schedule : List ℕ
schedule = 0 ∷ 1 ∷ 0 ∷ 1 ∷ 0 ∷ 1 ∷ 0 ∷ 0 ∷ 0 ∷ 1 ∷ 1 ∷ 0 ∷ 1 ∷ 1 ∷ 1 ∷ 1 ∷ 0 ∷ 0 ∷ []

whole_lines :
    (run (print_width 3) info schedule threads 0 []).2
    ≡ codes "2024-01-02_03-04-05_007 main:300 - one\r\n2024-01-02_03-04-05_007 main:300 - three\r\n"
unfolding run act_at act due pieces
whole_lines = refl

run-Lines_example :
    Whole (print_width 3) info (remaining threads) (run (print_width 3) info schedule threads 0 [])
run-Lines_example = run-Lines (print_width 3) info schedule threads refl
