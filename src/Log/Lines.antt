-- ===== src/Log/Lines.antt =====
-- The lines of the log stay whole.
use spsc.Prelude.{
  ℕ, ◌≤◌, ◌≡◌, refl, ap, sym, ◌∙◌, arith, inl, inr, Bool-cases, List, [], ◌∷◌, ◌++◌, append-nil,
  append_assoc, leb, if◌then◌else◌, take, codes,
}
use mathlib.Core.List.{Perm}
use mathlib.Core.List.Perm
use spsc.Log.{Entry, Thread, time_stamp, pieces, due, act_at, run}
use spsc.Log.Effect.{
  holders, flat, unprinted, unprinted_none, remaining, keeps, takes, releases, Moves, act_at-Effect,
}

module _ (print_int : ℕ → List ℕ) (log_priority : ℕ) where
  -- the line of a call, from the time to the end of the line; nothing where the priority hides it
  abbrev pub line_of : Entry → List ℕ
  line_of e =
      if leb e.level log_priority
      then (take 127 (e.date ++ (codes "_" ++ print_int e.usec))
          ++ (codes " " ++ (e.function ++ (codes ":" ++ (print_int e.line ++ codes " - ")))))
        ++ (e.text ++ codes "\r\n")
      else []

  abbrev pub lines_of : List Entry → List ℕ
  lines_of [] = []
  lines_of (e ∷ entries) = line_of e ++ lines_of entries

  -- Of these calls, the ones that have come to the output, in their order, and the others, which are
  -- those that the threads have still to make: what is printed, with what the thread in the lock has
  -- still to print, is the lines of the former, one after the other.
  abbrev pub Whole : List Entry → List Thread × ℕ × List ℕ → Type 0
  Whole calls state =
      (holders (state.0) ≡ state.1)
      × (state.1 ≤ 1)
      × ((begun : List Entry) × Perm (begun ++ remaining (state.0)) calls
          × (state.2 ++ unprinted (state.0) ≡ lines_of begun))

  due_lem : (e : Entry) → flat (due print_int log_priority e) ≡ line_of e
  unfolding due pieces time_stamp
  due_lem e = elim (Bool-cases (leb e.level log_priority)) [
    | inl shown ↦ rw shown refl
    | inr hidden ↦ rw hidden refl
  ]

  lines_of-append : (es fs : List Entry) → lines_of (es ++ fs) ≡ lines_of es ++ lines_of fs
  lines_of-append [] fs = refl
  lines_of-append (e ∷ es) fs =
      ap (λ x. line_of e ++ x) (lines_of-append es fs)
      ∙ sym (append_assoc (line_of e) (lines_of es) (lines_of fs))

  Whole-Effect :
      (calls : List Entry) (threads threads' : List Thread) (ts_lock ts_lock' : ℕ)
      (out printed : List ℕ)
      → Whole calls (threads, ts_lock, out)
      → Moves print_int log_priority threads ts_lock (threads', ts_lock', printed)
      → Whole calls (threads', ts_lock', out ++ printed)
  Whole-Effect calls threads threads' ts_lock ts_lock' out printed (n, le, (begun, all, e))
        (keeps same n' e' kept) =
      (
        n' ∙ n ∙ sym same,
        omega (arith, le, same),
        (
          begun,
          rw kept all,
          append_assoc out printed (unprinted threads') ∙ ap (λ l. out ++ l) e' ∙ e,
        ),
      )
  Whole-Effect calls threads threads' ts_lock ts_lock' out printed (n, le, (begun, all, e))
        (takes entry zero_lock one n' left silent took) =
      let before : out ≡ lines_of begun =
        sym (append-nil out)
        ∙ ap (λ l. out ++ l) (sym (unprinted_none threads (n ∙ zero_lock)))
        ∙ e in
      (
        n' ∙ sym one,
        omega (arith, one),
        (
          begun ++ (entry ∷ []),
          rw (append_assoc begun (entry ∷ []) (remaining threads'))
              (Perm.trans (Perm.append_left begun took) all),
          rw
              (
                silent,
                append-nil out,
                left,
                before,
                lines_of-append begun (entry ∷ []),
                append-nil (line_of entry),
                due_lem entry,
              )
              refl,
        ),
      )
  Whole-Effect calls threads threads' ts_lock ts_lock' out printed (n, le, (begun, all, e))
        (releases free n' e' kept) =
      (
        omega (arith, n, le, free, n'),
        omega (arith, free),
        (
          begun,
          rw kept all,
          append_assoc out printed (unprinted threads') ∙ ap (λ l. out ++ l) e' ∙ e,
        ),
      )

  run-Whole :
      (calls : List Entry) (schedule : List ℕ) (threads : List Thread) (ts_lock : ℕ) (out : List ℕ)
      → Whole calls (threads, ts_lock, out)
      → Whole calls (run print_int log_priority schedule threads ts_lock out)
  unfolding run
  run-Whole calls [] threads ts_lock out h = h
  run-Whole calls (i ∷ schedule) threads ts_lock out h =
      let after = act_at print_int log_priority threads i ts_lock in
      run-Whole calls schedule (after.0) (after.1) (out ++ after.2) (
        Whole-Effect calls threads (after.0) ts_lock (after.1) out (after.2) h
          (act_at-Effect print_int log_priority threads i ts_lock (omega (arith, h.0)) (h.1)))

  -- Any number of threads, none between `lock` and `unlock`, with `ts_lock` 0 and nothing printed:
  -- after every schedule, `ts_lock` is the number of threads between `lock` and `unlock`, at most 1,
  -- and some of the calls that the threads had to make, with the calls that they have still to make,
  -- are all of them, each once, such that what is printed, with what the thread between `lock` and
  -- `unlock` has still to print, is the lines of the former calls one after the other: of each the
  -- time, the place, the text and the end of the line, or nothing where the priority hides its level.
  pub run-Lines :
      (schedule : List ℕ) (threads : List Thread)
      → holders threads ≡ 0
      → Whole (remaining threads) (run print_int log_priority schedule threads 0 [])
  run-Lines schedule threads h =
      run-Whole (remaining threads) schedule threads 0 []
        (h, omega arith, ([], Perm.refl (remaining threads), unprinted_none threads h))
