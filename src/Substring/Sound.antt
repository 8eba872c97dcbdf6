-- ===== src/Substring/Sound.antt =====
-- What the search has noted is there.
use spsc.Prelude.{
  ◌^◌, returned, length-append, ℕ, suc, ◌+◌, ◌≤◌, ◌<◌, ◌≡◌, refl, ap, sym, ◌∙◌, inl, inr, false,
  List, [], ◌∷◌, ◌++◌, append-nil, append_assoc, arith, Bool-cases, length, get_or,
}
use spsc.Substring.{Sstring, sstring_init, sstring_compute, max_occurance}
use spsc.Substring.Scan.{advance, scan, scan_done, scan-cons, Searching, sstring_compute-scan}
use spsc.Substring.Scanned.{OccursAt, Scanned, OccursAt-append, Scanned-init}
use spsc.Substring.Advance.{advance-Scanned}

-- the same of what is noted, without the match going on
record Noted (p seen : List ℕ) (ss : Sstring) : Type 0 where
  pub few : ss.count ≤ max_occurance
  pub found : (k : ℕ) → k < ss.count → OccursAt p seen (get_or ss.locations k 0)
  pub apart :
      (k : ℕ)
      → suc k < ss.count
      → get_or ss.locations k 0 + length p ≤ get_or ss.locations (suc k) 0

scan_going :
    (p : List ℕ) (bytes seen pre : List ℕ) (ss : Sstring)
    → Scanned p seen pre ss
    → length seen + length bytes ≤ 2 ^ 31
    → (scan ss bytes).done ≡ false
    → (pre' : List ℕ) × Scanned p (seen ++ bytes) pre' (scan ss bytes)
scan_going p [] seen pre ss s fits going =
    let e : scan ss [] ≡ ss = unfold scan in refl in rw (e, append-nil seen) (pre, s)
scan_going p (x ∷ bytes) seen pre ss s fits going = elim (Bool-cases ss.done) [
  | inl done ↦
      let e : ss.done ≡ false = ap (λ s. s.done) (sym (scan_done (x ∷ bytes) ss done)) ∙ going in
      absurd (ground arith)
  | inr still ↦
      let next = advance-Scanned p seen pre ss x s (omega (arith, fits)) still in
      let rest =
        scan_going p bytes (seen ++ x ∷ []) (next.0) (advance ss x) (next.1)
          (omega (arith, fits, length-append seen (x ∷ [])))
          (ap (λ s. s.done) (sym (scan-cons x bytes ss still)) ∙ going) in
      rw (scan-cons x bytes ss still, sym (append_assoc seen (x ∷ []) bytes)) rest
]

pub scan-Scanned :
    (p bytes : List ℕ)
    → 0 < length p
    → length bytes ≤ 2 ^ 31
    → (scan (sstring_init p) bytes).done ≡ false
    → (pre : List ℕ) × Scanned p bytes pre (scan (sstring_init p) bytes)
scan-Scanned p bytes h fits =
    scan_going p bytes [] [] (sstring_init p) (Scanned-init p h) (omega (arith, fits))

scan-Noted :
    (p : List ℕ) (bytes seen pre : List ℕ) (ss : Sstring)
    → Scanned p seen pre ss
    → length seen + length bytes ≤ 2 ^ 31
    → Noted p (seen ++ bytes) (scan ss bytes)
scan-Noted p [] seen pre ss s fits =
    let e : scan ss [] ≡ ss = unfold scan in refl in
    rw (e, append-nil seen) (record { few = s.few; found = s.found; apart = s.apart })
scan-Noted p (x ∷ bytes) seen pre ss s fits = elim (Bool-cases ss.done) [
  | inl done ↦ rw (scan_done (x ∷ bytes) ss done) (record {
    few = s.few;
    found = λ k lt. OccursAt-append p seen (x ∷ bytes) (s.found k lt);
    apart = s.apart;
  })
  | inr going ↦
      let next = advance-Scanned p seen pre ss x s (omega (arith, fits)) going in
      let rest =
        scan-Noted p bytes (seen ++ x ∷ []) (next.0) (advance ss x) (next.1)
          (omega (arith, fits, length-append seen (x ∷ []))) in
      rw (scan-cons x bytes ss going, sym (append_assoc seen (x ∷ []) bytes)) rest
]

pub sstring_init-Searching : (p : List ℕ) → 0 < length p → Searching (sstring_init p)
unfolding sstring_init
sstring_init-Searching p h = record { state = h; states = refl }

pub sstring_compute-init :
    (p bytes : List ℕ)
    → 0 < length p
    → sstring_compute (sstring_init p) bytes ≡ returned (scan (sstring_init p) bytes)
sstring_compute-init p bytes h =
    sstring_compute-scan bytes (sstring_init p) (sstring_init-Searching p h)

-- The search of at most 2^31 bytes, begun anew for a pattern that is not empty, returns: it notes at
-- most 1,024 places, the pattern stands at each of them, and each begins at or after the end of the
-- one before.
pub sstring_compute_sound :
    (p bytes : List ℕ)
    → 0 < length p
    → length bytes ≤ 2 ^ 31
    → (ss : Sstring) × (sstring_compute (sstring_init p) bytes ≡ returned ss)
      × (ss.count ≤ 1024)
      × ((k : ℕ) → k < ss.count → OccursAt p bytes (get_or ss.locations k 0))
      × ((k : ℕ)
          → suc k < ss.count
          → get_or ss.locations k 0 + length p ≤ get_or ss.locations (suc k) 0)
sstring_compute_sound p bytes h fits =
    let n = scan-Noted p bytes [] [] (sstring_init p) (Scanned-init p h) (omega (arith, fits)) in
    (scan (sstring_init p) bytes, sstring_compute-init p bytes h, n.few, n.found, n.apart)
