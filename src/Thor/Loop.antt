-- ===== src/Thor/Loop.antt =====
-- `server_loop` of thor.c, for as many results of `server_accept` as are given.
use spsc.Prelude.{
  ℕ, zero, suc, ◌+◌, ◌*◌, Bool, none, some, Option, List, [], ◌∷◌, ◌++◌, length, if◌then◌else◌, Run,
  returned, ◌>>=◌,
}
use spsc.Outside.{Outside}
use spsc.Substring.{Sstring}
use spsc.Substring.Report.{print_sstring}
use spsc.Thor.{Thor, serve}

-- the state, the number of texts that were answered, the answers, and what `print_sstring` printed
pub record Loop : Type 0 where
  pub thor : Thor
  pub count : ℕ
  pub answers : List (List ℕ)
  pub printed : List ℕ

-- how many bytes and pieces are still to come
abbrev pub weight : List (List ℕ) → ℕ
weight [] = 0
weight (piece ∷ pieces) = suc (length piece + weight pieces)

-- `if (thor_config->do_search) print_sstring(substring_context);`
abbrev pub statistics : Outside → Option Sstring → List ℕ
statistics o none = []
statistics o (some ss) = print_sstring o.print_int ss

-- `goto START`
unfoldable pub disconnected : Outside → Loop → Loop
disconnected o loop = record loop {
  printed = loop.printed ++ statistics o loop.thor.substring_context;
}

-- the end of a round of the inner loop; `sent` tells whether `send` succeeds
unfoldable pub after_serve :
    Outside
    → (List (List ℕ) → Loop → Run (Option Loop))
    → Bool
    → Loop
    → Option (List ℕ)
    → Thor
    → List (List ℕ)
    → Run (Option Loop)
unfolding disconnected
after_serve o next sent loop none thor rest =
    returned (some (disconnected o (record loop { thor = thor })))
after_serve o next sent loop (some answer) thor rest =
    let loop' : Loop = record {
      thor = thor;
      count = loop.count + 1;
      answers = loop.answers ++ answer ∷ [];
      printed = loop.printed;
    } in
    let more = next rest loop' in if sent then more else returned (some (disconnected o loop'))

module _ (o : Outside) (segment : ℕ → List ℕ) (sent : ℕ → Bool) where
  -- The inner loop, on fuel, the first argument. The `n`-th text is checked against the segment as it
  -- is at time `3 * n`, written as it is at the next, and searched as it is at the one after that.
  unfoldable pub connection : ℕ → List (List ℕ) → Loop → Run (Option Loop)
  connection zero pieces loop = returned none
  connection (suc fuel) pieces loop =
      serve o loop.count pieces loop.thor (segment (3 * loop.count)) (segment (3 * loop.count + 1))
        (segment (3 * loop.count + 2))
      >>= λ served.
          after_serve o (connection fuel) (sent loop.count) loop (served.0) (served.1) (served.2)

  abbrev pub then_accept : (Loop → Run (Option Loop)) → Option Loop → Run (Option Loop)
  then_accept next none = returned none
  then_accept next (some loop) = next loop

  -- The outer loop; none is an `accept` that fails, and a connection has its pieces. Each round of the
  -- inner loop that goes on takes a byte at least.
  unfoldable pub server_loop : List (Option (List (List ℕ))) → Loop → Run (Option Loop)
  server_loop [] loop = returned (some loop)
  server_loop (none ∷ accepts) loop = server_loop accepts loop
  server_loop (some pieces ∷ accepts) loop =
      connection (suc (weight pieces)) pieces loop >>= then_accept (server_loop accepts)
