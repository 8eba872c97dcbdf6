-- ===== src/Lock/Tests.antt =====
-- A run of the spin lock of util.c with two threads.
use spsc.Prelude.{ℕ, ◌≤◌, ◌≡◌, refl, List, [], ◌∷◌, replicate}
use spsc.Lock.{outside, spinning, inside, turn, turn_at, run}
use spsc.Lock.Exclusion.{holders, holders-run_excludes}

-- both begin, the first gets in, and the second spins
abbrev schedule : List ℕ
schedule = 0 ∷ 1 ∷ 0 ∷ 1 ∷ 1 ∷ []

one_waits : run schedule (replicate 2 outside) 0 ≡ (inside ∷ spinning ∷ [], 1)
unfolding run turn_at turn
one_waits = refl

holders-run_excludes_example :
    let after = run schedule (replicate 2 outside) 0 in
    (holders (after.0) ≡ after.1) × (after.1 ≤ 1)
holders-run_excludes_example = holders-run_excludes 2 schedule
