-- ===== src/Lock/Exclusion.antt =====
-- util.c: the spin lock lets one thread in at a time.
use spsc.Prelude.{ℕ, zero, suc, ◌+◌, ◌≤◌, ◌≡◌, refl, arith, List, [], ◌∷◌, replicate, ◌==◌, false}
use spsc.Lock.{Place, outside, testing, spinning, inside, turn, turn_at, run}

abbrev pub is_inside : Place → ℕ
is_inside outside = 0
is_inside testing = 0
is_inside spinning = 0
is_inside inside = 1

-- how many threads are between `lock` and `unlock`
abbrev pub holders : List Place → ℕ
holders [] = 0
holders (p ∷ threads) = is_inside p + holders threads

-- one action moves the variable as it moves the number of those inside
pub turn_lem :
    (p : Place) (exclusion : ℕ)
    → exclusion ≤ 1
    → is_inside p ≤ exclusion
    → (is_inside ((turn p exclusion).0) + exclusion ≡ is_inside p + (turn p exclusion).1)
      × ((turn p exclusion).1 ≤ 1)
unfolding turn
turn_lem outside e le h = (refl, le)
turn_lem testing zero le h = (refl, omega arith)
turn_lem testing (suc e) le h =
    let held : (suc e == 0) ≡ false = ground arith in (rw held (omega (arith, le)), omega arith)
turn_lem spinning zero le h = (refl, omega arith)
turn_lem spinning (suc e) le h =
    let held : (suc e == 0) ≡ false = ground arith in (rw held refl, le)
turn_lem inside e le h = (omega (arith, le, h), omega arith)

turn_at_lem :
    (threads : List Place) (i exclusion : ℕ)
    → exclusion ≤ 1
    → holders threads ≤ exclusion
    → (holders ((turn_at threads i exclusion).0) + exclusion
        ≡ holders threads + (turn_at threads i exclusion).1)
      × ((turn_at threads i exclusion).1 ≤ 1)
unfolding turn_at
turn_at_lem [] i e le h = (omega arith, le)
turn_at_lem (p ∷ threads) zero e le h =
    let t = turn_lem p e le (omega (arith, h)) in (omega (arith, t.0), t.1)
turn_at_lem (p ∷ threads) (suc i) e le h =
    let t = turn_at_lem threads i e le (omega (arith, h)) in (omega (arith, t.0), t.1)

holders-run :
    (schedule : List ℕ) (threads : List Place) (exclusion : ℕ)
    → exclusion ≤ 1
    → holders threads ≡ exclusion
    → (holders ((run schedule threads exclusion).0) ≡ (run schedule threads exclusion).1)
      × ((run schedule threads exclusion).1 ≤ 1)
unfolding run
holders-run [] threads e le h = (h, le)
holders-run (i ∷ schedule) threads e le h =
    let t = turn_at_lem threads i e le (omega (arith, h)) in
    let after = turn_at threads i e in
    holders-run schedule (after.0) (after.1) (t.1) (omega (arith, t.0, h))

holders-outside : (n : ℕ) → holders (replicate n outside) ≡ 0
holders-outside zero = refl
holders-outside (suc n) = omega (arith, holders-outside n)

-- Any number of threads, outside at first and with the variable 0: after every schedule the number
-- of threads between `lock` and `unlock` is the value of the variable, which is at most 1.
pub holders-run_excludes :
    (n : ℕ) (schedule : List ℕ)
    → let after = run schedule (replicate n outside) 0 in
      (holders (after.0) ≡ after.1) × (after.1 ≤ 1)
holders-run_excludes n schedule =
    holders-run schedule (replicate n outside) 0 (omega arith) (holders-outside n)
