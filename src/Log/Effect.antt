-- ===== src/Log/Effect.antt =====
-- What one action of a thread that logs does to the lock and to the output.
use spsc.Prelude.{
  ℕ, zero, suc, ◌≤◌, ◌≡◌, refl, ap, sym, ◌∙◌, arith, inl, inr, Bool-cases, List, [], ◌∷◌, ◌++◌,
  append-nil, append_assoc, ◌==◌,
}
use mathlib.Core.List.{Perm, perm_middle}
use mathlib.Core.List.Perm
use spsc.Log.{Entry, Thread, between, testing, spinning, printing, due, act, act_at}

-- how many threads are between `lock` and `unlock`
abbrev pub holders : List Thread → ℕ
holders [] = 0
holders (between calls ∷ threads) = holders threads
holders (testing e calls ∷ threads) = holders threads
holders (spinning e calls ∷ threads) = holders threads
holders (printing left calls ∷ threads) = suc (holders threads)

abbrev pub flat : List (List ℕ) → List ℕ
flat [] = []
flat (l ∷ ls) = l ++ flat ls

-- what these threads have still to print
abbrev pub unprinted : List Thread → List ℕ
unprinted [] = []
unprinted (between calls ∷ threads) = unprinted threads
unprinted (testing e calls ∷ threads) = unprinted threads
unprinted (spinning e calls ∷ threads) = unprinted threads
unprinted (printing left calls ∷ threads) = flat left ++ unprinted threads

pub unprinted_none : (threads : List Thread) → holders threads ≡ 0 → unprinted threads ≡ []
unprinted_none [] h = refl
unprinted_none (between calls ∷ threads) h = unprinted_none threads h
unprinted_none (testing e calls ∷ threads) h = unprinted_none threads h
unprinted_none (spinning e calls ∷ threads) h = unprinted_none threads h
unprinted_none (printing left calls ∷ threads) h = absurd (omega (arith, h))

-- the calls of these threads that have not come to the output
abbrev pub remaining : List Thread → List Entry
remaining [] = []
remaining (between calls ∷ threads) = calls ++ remaining threads
remaining (testing e calls ∷ threads) = (e ∷ calls) ++ remaining threads
remaining (spinning e calls ∷ threads) = (e ∷ calls) ++ remaining threads
remaining (printing left calls ∷ threads) = calls ++ remaining threads

fewer :
    (t : Thread) (threads : List Thread) (n : ℕ) → holders (t ∷ threads) ≤ n → holders threads ≤ n
fewer (between calls) threads n h = h
fewer (testing e calls) threads n h = h
fewer (spinning e calls) threads n h = h
fewer (printing left calls) threads n h = omega (arith, h)

module _ (print_int : ℕ → List ℕ) (log_priority : ℕ) where
  -- what one action does to the holders, the lock, what they have still to print, the calls that have
  -- not come to the output, and the output
  pub data Effect (n ts_lock : ℕ) (left : List ℕ) (calls : List Entry) (n' ts_lock' : ℕ)
      (left' : List ℕ) (calls' : List Entry) (out : List ℕ) : Type 0 where
    keeps :
        ts_lock' ≡ ts_lock
        → n' ≡ n
        → out ++ left' ≡ left
        → calls' ≡ calls
        → Effect n ts_lock left calls n' ts_lock' left' calls' out
    takes :
        (e : Entry)
        → ts_lock ≡ 0
        → ts_lock' ≡ 1
        → n' ≡ 1
        → left' ≡ flat (due print_int log_priority e)
        → out ≡ []
        → Perm (e ∷ calls') calls
        → Effect n ts_lock left calls n' ts_lock' left' calls' out
    releases :
        ts_lock' ≡ 0
        → suc n' ≡ n
        → out ++ left' ≡ left
        → calls' ≡ calls
        → Effect n ts_lock left calls n' ts_lock' left' calls' out

  abbrev pub Moves : List Thread → ℕ → List Thread × ℕ × List ℕ → Type 0
  Moves threads ts_lock after =
      Effect (holders threads) ts_lock (unprinted threads) (remaining threads) (holders (after.0))
        (after.1) (unprinted (after.0)) (remaining (after.0)) (after.2)

  act-Effect :
      (t : Thread) (threads : List Thread) (ts_lock : ℕ)
      → holders (t ∷ threads) ≤ ts_lock
      → ts_lock ≤ 1
      → let after = act print_int log_priority t ts_lock in
        Moves (t ∷ threads) ts_lock (after.0 ∷ threads, after.1, after.2)
  unfolding act
  act-Effect (between []) threads ts_lock h le = keeps refl refl refl refl
  act-Effect (between (e ∷ calls)) threads ts_lock h le = keeps refl refl refl refl
  act-Effect (testing e calls) threads ts_lock h le = elim (Bool-cases (ts_lock == 0)) [
    | inl free ↦
        let zero_lock : ts_lock ≡ 0 = ground arith in
        let none : holders threads ≡ 0 = omega (arith, h) in
        rw free (
          takes e zero_lock refl (ap suc none)
            (ap (λ l. flat (due print_int log_priority e) ++ l) (unprinted_none threads none)
              ∙ append-nil _)
            refl (Perm.refl (e ∷ (calls ++ remaining threads))))
    | inr busy ↦ rw busy (keeps (ground arith) refl refl refl)
  ]
  act-Effect (spinning e calls) threads ts_lock h le = elim (Bool-cases (ts_lock == 0)) [
    | inl free ↦ rw free (keeps refl refl refl refl)
    | inr busy ↦ rw busy (keeps refl refl refl refl)
  ]
  act-Effect (printing [] calls) threads ts_lock h le = releases refl refl refl refl
  act-Effect (printing (p ∷ left) calls) threads ts_lock h le =
      keeps refl refl (sym (append_assoc p (flat left) (unprinted threads))) refl

  -- While one thread prints, the others can do nothing that shows.
  others-Effect :
      (left : List (List ℕ)) (calls : List Entry) (threads : List Thread) (ts_lock : ℕ)
      (after : List Thread × ℕ × List ℕ)
      → suc (holders threads) ≤ ts_lock
      → ts_lock ≤ 1
      → Moves threads ts_lock after
      → Moves
          (printing left calls ∷ threads)
          ts_lock
          (printing left calls ∷ after.0, after.1, after.2)
  others-Effect left calls threads ts_lock after h le (keeps same n e kept) =
      let none : holders threads ≡ 0 = omega (arith, h, le) in
      let before = unprinted_none threads none in
      let rest = unprinted_none (after.0) (n ∙ none) in
      let silent : after.2 ≡ [] =
        sym (append-nil (after.2)) ∙ ap (λ l. after.2 ++ l) (sym rest) ∙ e ∙ before in
      keeps same (ap suc n) (rw (silent, rest, before) refl) (ap (λ l. calls ++ l) kept)
  others-Effect left calls threads ts_lock after h le (takes e zero_lock one n l s took) =
      absurd (omega (arith, h, zero_lock))
  others-Effect left calls threads ts_lock after h le (releases free n e kept) =
      absurd (omega (arith, h, le, n))

  -- One more thread, which has these calls still to make, changes nothing else.
  among-Effect :
      (own : List Entry) {n ts_lock : ℕ} {left : List ℕ} {calls : List Entry} {n' ts_lock' : ℕ}
      {left' : List ℕ} {calls' : List Entry} {out : List ℕ}
      → Effect n ts_lock left calls n' ts_lock' left' calls' out
      → Effect n ts_lock left (own ++ calls) n' ts_lock' left' (own ++ calls') out
  among-Effect own (keeps same n e kept) = keeps same n e (ap (λ l. own ++ l) kept)
  among-Effect own {calls' = calls'} (takes e zero_lock one n l s took) =
      takes e zero_lock one n l s
        (Perm.trans (Perm.symm (perm_middle own calls')) (Perm.append_left own took))
  among-Effect own (releases free n e kept) = releases free n e (ap (λ l. own ++ l) kept)

  behind-Effect :
      (t : Thread) (threads : List Thread) (ts_lock : ℕ) (after : List Thread × ℕ × List ℕ)
      → holders (t ∷ threads) ≤ ts_lock
      → ts_lock ≤ 1
      → Moves threads ts_lock after
      → Moves (t ∷ threads) ts_lock (t ∷ after.0, after.1, after.2)
  behind-Effect (between calls) threads ts_lock after h le moves = among-Effect calls moves
  behind-Effect (testing e calls) threads ts_lock after h le moves = among-Effect (e ∷ calls) moves
  behind-Effect (spinning e calls) threads ts_lock after h le moves = among-Effect (e ∷ calls) moves
  behind-Effect (printing left calls) threads ts_lock after h le moves =
      others-Effect left calls threads ts_lock after h le moves

  pub act_at-Effect :
      (threads : List Thread) (i ts_lock : ℕ)
      → holders threads ≤ ts_lock
      → ts_lock ≤ 1
      → Moves threads ts_lock (act_at print_int log_priority threads i ts_lock)
  unfolding act_at
  act_at-Effect [] i ts_lock h le = keeps refl refl refl refl
  act_at-Effect (t ∷ threads) zero ts_lock h le = act-Effect t threads ts_lock h le
  act_at-Effect (t ∷ threads) (suc i) ts_lock h le =
      behind-Effect t threads ts_lock (act_at print_int log_priority threads i ts_lock) h le
        (act_at-Effect threads i ts_lock (fewer t threads ts_lock h) le)
