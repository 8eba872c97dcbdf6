-- ===== src/Lock.antt =====
-- util.c: the spin lock, used by any number of threads. The model's step is one atomic action of one
-- thread, and a schedule says whose turn it is. A thread unlocks only what it has locked.
pub mod Exclusion
mod Tests
use spsc.Prelude.{ℕ, zero, suc, ◌+◌, List, [], ◌∷◌, ◌==◌, if◌then◌else◌}

-- Where a thread is: outside; before the test-and-set of `lock`; in its inner `while`; or between
-- `lock` and `unlock`.
pub data Place : Type 0 where
  outside : Place
  testing : Place
  spinning : Place
  inside : Place

-- the thread's place and `*exclusion` after its next action: `__sync_lock_test_and_set` writes 1 and
-- gives the old value, and `__sync_lock_release` writes 0
unfoldable pub turn : Place → ℕ → Place × ℕ
turn outside exclusion = (testing, exclusion)
turn testing exclusion = (if exclusion == 0 then inside else spinning, 1)
turn spinning exclusion = (if exclusion == 0 then testing else spinning, exclusion)
turn inside exclusion = (outside, 0)

-- the turn of thread `i`
unfoldable pub turn_at : List Place → ℕ → ℕ → List Place × ℕ
turn_at [] i exclusion = ([], exclusion)
turn_at (p ∷ threads) zero exclusion = let after = turn p exclusion in (after.0 ∷ threads, after.1)
turn_at (p ∷ threads) (suc i) exclusion =
    let after = turn_at threads i exclusion in (p ∷ after.0, after.1)

unfoldable pub run : List ℕ → List Place → ℕ → List Place × ℕ
run [] threads exclusion = (threads, exclusion)
run (i ∷ schedule) threads exclusion =
    let after = turn_at threads i exclusion in run schedule (after.0) (after.1)
