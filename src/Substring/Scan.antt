-- ===== src/Substring/Scan.antt =====
-- The search: how it takes a stream in pieces, and one matched of it from a state that is not done.
use mathlib.Core.Path.{subst}
use spsc.Prelude.{
  Run, undefined, ◌<◌, length, ltb, ◌>>=◌, returned, if◌then◌else◌, ℕ, ◌+◌, ◌≡◌, ◌≢◌, refl, ap, sym,
  ◌∙◌, inl, inr, true, false, List, [], ◌∷◌, ◌++◌, arith, ◌==◌, Bool-cases, get_or,
}
use spsc.Substring.{Sstring, note, matched, step, sstring_compute}

-- the loop where every read is in the pattern
unfoldable pub scan : Sstring → List ℕ → Sstring
scan ss [] = ss
scan ss (byte ∷ rest) =
    let ss' = matched ss byte in
    let next = scan (record ss' { total = ss'.total + 1 }) rest in if ss.done then ss else next

pub scan_done : (xs : List ℕ) (ss : Sstring) → ss.done ≡ true → scan ss xs ≡ ss
unfolding scan
scan_done [] ss e = refl
scan_done (x ∷ xs) ss e = rw e

-- one round of the loop
abbrev pub advance : Sstring → ℕ → Sstring
advance ss byte = let ss' = matched ss byte in record ss' { total = ss'.total + 1 }

pub scan-cons :
    (x : ℕ) (xs : List ℕ) (ss : Sstring)
    → ss.done ≡ false
    → scan ss (x ∷ xs) ≡ scan (advance ss x) xs
unfolding scan
scan-cons x xs ss e = rw e

pub scan-append : (xs ys : List ℕ) (ss : Sstring) → scan ss (xs ++ ys) ≡ scan (scan ss xs) ys
scan-append [] ys ss = unfold scan in refl
scan-append (x ∷ xs) ys ss = elim (Bool-cases ss.done) [
  | inl done ↦
      scan_done (x ∷ xs ++ ys) ss done
      ∙ sym (scan_done ys ss done)
      ∙ ap (λ s. scan s ys) (sym (scan_done (x ∷ xs) ss done))
  | inr going ↦
      scan-cons x (xs ++ ys) ss going
      ∙ scan-append xs ys (advance ss x)
      ∙ ap (λ s. scan s ys) (sym (scan-cons x xs ss going))
]

module _ (ss : Sstring) (byte : ℕ) where
  -- a byte that does not go on with the match
  pub step_other : byte ≢ get_or ss.pattern ss.state 0 → matched ss byte ≡ record ss { state = 0 }
  unfolding matched
  step_other ne = let e : (byte == get_or ss.pattern ss.state 0) ≡ false = ground arith in rw e

  -- one that does, and leaves a part of the pattern to match
  pub step_match :
      byte ≡ get_or ss.pattern ss.state 0
      → ss.state + 1 ≢ ss.total_states
      → matched ss byte ≡ record ss { state = ss.state + 1 }
  unfolding matched
  step_match e ne =
      let hit : (byte == get_or ss.pattern ss.state 0) ≡ true = ground arith in
      let more : (ss.state + 1 == ss.total_states) ≡ false = ground arith in rw (hit, more)

  -- one that ends the pattern
  pub step_end :
      byte ≡ get_or ss.pattern ss.state 0
      → ss.state + 1 ≡ ss.total_states
      → matched ss byte ≡ note (record ss { state = ss.state + 1 })
  unfolding matched
  step_end e last =
      let hit : (byte == get_or ss.pattern ss.state 0) ≡ true = ground arith in
      let whole : (ss.state + 1 == ss.total_states) ≡ true = ground arith in rw (hit, whole)

-- Between two bytes of a pattern that is not empty the next read is in it.
pub record Searching (ss : Sstring) : Type 0 where
  pub state : ss.state < length ss.pattern
  pub states : ss.total_states ≡ length ss.pattern

pub advance-Searching : (ss : Sstring) (byte : ℕ) → Searching ss → Searching (advance ss byte)
unfolding matched note
advance-Searching ss byte h = elim (Bool-cases (byte == get_or ss.pattern ss.state 0)) [
  | inr other ↦ rw other (record { state = omega (arith, h.state); states = h.states })
  | inl hit ↦ elim (Bool-cases (ss.state + 1 == ss.total_states)) [
    | inl last ↦ rw (hit, last) (record { state = omega (arith, h.state); states = h.states })
    | inr more ↦
        let ne : ss.state + 1 ≢ ss.total_states = ground arith in
        rw (hit, more) (record { state = omega (arith, h.state, h.states, ne); states = h.states })
  ]
]

pub scan-Searching : (bytes : List ℕ) (ss : Sstring) → Searching ss → Searching (scan ss bytes)
scan-Searching [] ss h = unfold scan in h
scan-Searching (x ∷ bytes) ss h = elim (Bool-cases ss.done) [
  | inl done ↦ subst Searching (sym (scan_done (x ∷ bytes) ss done)) h
  | inr going ↦
      subst Searching (sym (scan-cons x bytes ss going))
        (scan-Searching bytes (advance ss x) (advance-Searching ss x h))
]

stays : (ys : List ℕ) (ss : Sstring) → ss.done ≡ true → sstring_compute ss ys ≡ returned ss
unfolding sstring_compute
stays [] ss done = refl
stays (y ∷ ys) ss done = rw done refl

goes_on :
    (x : ℕ) (xs : List ℕ) (ss : Sstring)
    → ss.done ≡ false
    → ltb (length ss.pattern) ss.state ≡ false
    → sstring_compute ss (x ∷ xs) ≡ sstring_compute (advance ss x) xs
unfolding sstring_compute step
goes_on x xs ss going within = simp (going, within)

goes_out :
    (x : ℕ) (xs : List ℕ) (ss : Sstring)
    → ss.done ≡ false
    → ltb (length ss.pattern) ss.state ≡ true
    → sstring_compute ss (x ∷ xs) ≡ undefined
unfolding sstring_compute step
goes_out x xs ss going out = simp (going, out)

pub sstring_compute-scan :
    (bytes : List ℕ) (ss : Sstring)
    → Searching ss
    → sstring_compute ss bytes ≡ returned (scan ss bytes)
sstring_compute-scan [] ss h = unfold sstring_compute scan in refl
sstring_compute-scan (x ∷ bytes) ss h =
    let within : ltb (length ss.pattern) ss.state ≡ false = (let lt = h.state in ground arith) in
    elim (Bool-cases ss.done) [
      | inl done ↦ stays (x ∷ bytes) ss done ∙ ap returned (sym (scan_done (x ∷ bytes) ss done))
      | inr going ↦
          goes_on x bytes ss going within
          ∙ sstring_compute-scan bytes (advance ss x) (advance-Searching ss x h)
          ∙ ap returned (sym (scan-cons x bytes ss going))
    ]

-- A stream that arrives in two pieces is searched as if it arrived in one.
pub sstring_compute-append :
    (xs ys : List ℕ) (ss : Sstring)
    → sstring_compute ss (xs ++ ys) ≡ (sstring_compute ss xs >>= λ s. sstring_compute s ys)
sstring_compute-append [] ys ss = unfold sstring_compute in refl
sstring_compute-append (x ∷ xs) ys ss =
    let then_more : Run Sstring → Run Sstring = λ r. r >>= λ s. sstring_compute s ys in
    elim (Bool-cases ss.done) [
      | inl done ↦
          stays (x ∷ xs ++ ys) ss done
          ∙ sym (stays ys ss done)
          ∙ ap then_more (sym (stays (x ∷ xs) ss done))
      | inr going ↦ elim (Bool-cases (ltb (length ss.pattern) ss.state)) [
        | inl out ↦
            goes_out x (xs ++ ys) ss going out ∙ ap then_more (sym (goes_out x xs ss going out))
        | inr within ↦
            goes_on x (xs ++ ys) ss going within
            ∙ sstring_compute-append xs ys (advance ss x)
            ∙ ap then_more (sym (goes_on x xs ss going within))
      ]
    ]
