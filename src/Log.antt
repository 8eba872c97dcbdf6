-- ===== src/Log.antt =====
-- log.h and `TimeStamp` of util.c: the log of one program, written by any number of its threads. A step
-- of the model is one atomic action of one thread, where a `printf` is one, and a schedule says
-- whose turn it is.
pub mod Effect
pub mod Lines
mod Tests
use spsc.Prelude.{ℕ, zero, suc, ◌++◌, List, [], ◌∷◌, ◌==◌, leb, if◌then◌else◌, take, codes}

abbrev pub info : ℕ
info = 1

abbrev pub debug : ℕ
debug = 2

-- A call of `LOGI` or `LOGD`, by its level: what `strftime` gives, and the microseconds, when the clock
-- is asked; the place in the source; and what `printf(args)` prints.
pub record Entry : Type 0 where
  pub level : ℕ
  pub date : List ℕ
  pub usec : ℕ
  pub function : List ℕ
  pub line : ℕ
  pub text : List ℕ

-- Where a thread is: between two calls; before the test-and-set of `lock`; in its inner `while`; or
-- between `lock` and `unlock`, with what is still to print. What follows are its calls still to come.
pub data Thread : Type 0 where
  between : List Entry → Thread
  testing : Entry → List Entry → Thread
  spinning : Entry → List Entry → Thread
  printing : List (List ℕ) → List Entry → Thread

module _ (print_int : ℕ → List ℕ) (log_priority : ℕ) where
  -- `snprintf` leaves room for the zero in the 128 characters of `timestamp`.
  unfoldable pub time_stamp : List ℕ → ℕ → List ℕ
  time_stamp date usec = take 127 (date ++ (codes "_" ++ print_int usec))

  -- what the three calls of `printf` print
  unfoldable pub pieces : Entry → List (List ℕ)
  unfolding time_stamp
  pieces e =
      (time_stamp e.date e.usec
        ++ (codes " " ++ (e.function ++ (codes ":" ++ (print_int e.line ++ codes " - ")))))
      ∷ e.text
      ∷ codes "\r\n"
      ∷ []

  -- `if (INFO <= LOG_PRIORITY)`, or `DEBUG`
  unfoldable pub due : Entry → List (List ℕ)
  due e = if leb e.level log_priority then pieces e else []

  -- The thread and `ts_lock` after its next action, and what it prints.
  unfoldable pub act : Thread → ℕ → Thread × ℕ × List ℕ
  unfolding due
  act (between []) ts_lock = (between [], ts_lock, [])
  act (between (e ∷ calls)) ts_lock = (testing e calls, ts_lock, [])
  act (testing e calls) ts_lock =
      (if ts_lock == 0 then printing (due e) calls else spinning e calls, 1, [])
  act (spinning e calls) ts_lock =
      (if ts_lock == 0 then testing e calls else spinning e calls, ts_lock, [])
  act (printing [] calls) ts_lock = (between calls, 0, [])
  act (printing (p ∷ left) calls) ts_lock = (printing left calls, ts_lock, p)

  unfoldable pub act_at : List Thread → ℕ → ℕ → List Thread × ℕ × List ℕ
  unfolding act
  act_at [] i ts_lock = ([], ts_lock, [])
  act_at (t ∷ threads) zero ts_lock =
      let after = act t ts_lock in (after.0 ∷ threads, after.1, after.2)
  act_at (t ∷ threads) (suc i) ts_lock =
      let after = act_at threads i ts_lock in (t ∷ after.0, after.1, after.2)

  -- The threads, the lock and all that is printed, after the turns that the schedule gives.
  unfoldable pub run : List ℕ → List Thread → ℕ → List ℕ → List Thread × ℕ × List ℕ
  unfolding act_at
  run [] threads ts_lock out = (threads, ts_lock, out)
  run (i ∷ schedule) threads ts_lock out =
      let after = act_at threads i ts_lock in run schedule (after.0) (after.1) (out ++ after.2)
