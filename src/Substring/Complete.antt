-- ===== src/Substring/Complete.antt =====
-- What the search finds, and what it passes over: a byte that ends a partial match is not tried as
-- the first of another.
use spsc.Prelude.{
  ◌^◌, returned, returned-injective, ℕ, suc, ◌+◌, ◌-◌, ◌≤◌, ◌<◌, ◌≡◌, ◌≢◌, refl, ap, sym, ◌∙◌, inl,
  inr, false, List, [], ◌∷◌, ◌++◌, arith, Bool-cases, ℕ_discrete, length, get_or, drop, length-drop,
  drop-eq-cons, get_or-set_self,
}
use spsc.Substring.Scanned.{Scanned-room}
use spsc.Substring.Sound.{scan-Scanned, sstring_compute-init}
use spsc.Substring.{Sstring, sstring_init, note, to_int, sstring_compute}
use spsc.Substring.Scan.{scan, scan_done, scan-cons, scan-append, step_other, step_match, step_end}

abbrev round : Sstring → Sstring
round ss = record ss { total = ss.total + 1 }

length-zero : (xs : List ℕ) → length xs ≡ 0 → xs ≡ []
length-zero [] h = refl
length-zero (x ∷ xs) h = elim (let f : ⊥ = omega (arith, h) in f) [ ]

-- the byte that ends the pattern
scan_end :
    (ss : Sstring)
    → ss.state + 1 ≡ ss.total_states
    → ss.state ≤ ss.total
    → ss.total + 1 ≤ 2 ^ 31
    → ss.count < length ss.locations
    → let ss' = scan (round (note (record ss { state = ss.state + 1 }))) [] in
      (ss'.count ≡ ss.count + 1) × (get_or ss'.locations ss.count 0 ≡ ss.total - ss.state)
unfolding note scan
scan_end ss last le fits slot = (
  refl,
  get_or-set_self ss.locations ss.count (to_int (ss.total - (ss.total_states - 1))) 0 slot
      ∙ omega (arith, last, fits),
)

-- the rest of the pattern ends a match that has gone on for `state` bytes
scan_rest :
    (rest : List ℕ) (ss : Sstring)
    → ss.done ≡ false
    → ss.total_states ≡ length ss.pattern
    → ss.state < ss.total_states
    → drop ss.state ss.pattern ≡ rest
    → ss.state ≤ ss.total
    → ss.total + length rest ≤ 2 ^ 31
    → ss.count < length ss.locations
    → ((scan ss rest).count ≡ ss.count + 1)
      × (get_or (scan ss rest).locations ss.count 0 ≡ ss.total - ss.state)
scan_rest [] ss going states lt e le fits slot =
    elim (let f : ⊥ = omega (arith, states, lt, ap length e, length-drop ss.state ss.pattern) in
      f) [ ]
scan_rest (x ∷ rest) ss going states lt e le fits slot =
    let split : x ∷ rest ≡ get_or ss.pattern ss.state 0 ∷ drop (suc ss.state) ss.pattern =
      sym e ∙ drop-eq-cons ss.pattern ss.state 0 (omega (arith, states, lt)) in
    let hit : x ≡ get_or ss.pattern ss.state 0 = ap (λ l. get_or l 0 0) split in
    let rest_eq : rest ≡ drop (suc ss.state) ss.pattern = ap (λ l. drop 1 l) split in
    rw (scan-cons x rest ss going) (elim (ℕ_discrete (ss.state + 1) ss.total_states) [
      | yes last ↦
          let none : length rest ≡ 0 =
            omega (arith, ap length rest_eq, length-drop (suc ss.state) ss.pattern, last, states) in
          rw (step_end ss x hit last, length-zero rest none)
            (scan_end ss last le (omega (arith, fits)) slot)
      | no more ↦
          let next =
            scan_rest rest (round (record ss { state = ss.state + 1 })) going states
              (omega (arith, lt, more))
              (ap (λ n. drop n ss.pattern)
                  (let e' : ss.state + 1 ≡ suc ss.state = omega arith in e')
                ∙ sym rest_eq)
              (omega (arith, le)) (omega (arith, fits)) slot in
          rw (step_match ss x hit more) (next.0, next.1 ∙ omega arith)
    ])

scan_finds :
    (p before : List ℕ)
    → 0 < length p
    → length before + length p ≤ 2 ^ 31
    → let ss = scan (sstring_init p) before in
      ss.state ≡ 0
      → ss.done ≡ false
      → let ss' = scan (sstring_init p) (before ++ p) in
        (ss'.count ≡ ss.count + 1) × (get_or ss'.locations ss.count 0 ≡ length before)
scan_finds p before h fits idle going =
    let ss = scan (sstring_init p) before in
    let s = scan-Scanned p before h (omega (arith, fits)) going in
    let pre = s.0 in
    let facts = s.1 in
    let whole =
      scan_rest p ss going (facts.states ∙ ap length (sym facts.pattern))
        (omega (arith, idle, h, facts.states)) (ap (λ n. drop n ss.pattern) idle ∙ facts.pattern)
        (omega (arith, idle)) (omega (arith, facts.total, fits)) (Scanned-room facts going) in
    rw (scan-append before p (sstring_init p)) (whole.0, whole.1 ∙ omega (arith, idle, facts.total))

-- A pattern, not empty, that begins when no match is going on and the search is not done, in the first
-- 2^31 bytes, is noted at its place.
pub sstring_compute_finds :
    (p before : List ℕ) (ss : Sstring)
    → 0 < length p
    → length before + length p ≤ 2 ^ 31
    → sstring_compute (sstring_init p) before ≡ returned ss
    → ss.state ≡ 0
    → ss.done ≡ false
    → (ss' : Sstring) × (sstring_compute (sstring_init p) (before ++ p) ≡ returned ss')
      × (ss'.count ≡ ss.count + 1)
      × (get_or ss'.locations ss.count 0 ≡ length before)
sstring_compute_finds p before ss h fits run idle going =
    let same : ss ≡ scan (sstring_init p) before =
      returned-injective (sym run ∙ sstring_compute-init p before h) in
    let (found, at) =
      scan_finds p before h fits (ap (λ s. s.state) (sym same) ∙ idle)
        (ap (λ s. s.done) (sym same) ∙ going) in
    (
      scan (sstring_init p) (before ++ p),
      sstring_compute-init p (before ++ p) h,
      found ∙ ap (λ s. s.count + 1) (sym same),
      ap (λ (s : Sstring). get_or (scan (sstring_init p) (before ++ p)).locations s.count 0) same
          ∙ at,
    )

-- a stream too short to end the pattern notes nothing
scan_short :
    (bytes : List ℕ) (ss : Sstring)
    → ss.state + length bytes < ss.total_states
    → (scan ss bytes).count ≡ ss.count
scan_short [] ss h = unfold scan in refl
scan_short (x ∷ bytes) ss h = elim (Bool-cases ss.done) [
  | inl done ↦ ap (λ s. s.count) (scan_done (x ∷ bytes) ss done)
  | inr going ↦
      ap (λ s. s.count) (scan-cons x bytes ss going)
      ∙ elim (ℕ_discrete x (get_or ss.pattern ss.state 0)) [
        | no ne ↦
            ap (λ s. (scan (round s) bytes).count) (step_other ss x ne)
            ∙ scan_short bytes (round (record ss { state = 0 })) (omega (arith, h))
        | yes hit ↦
            ap (λ s. (scan (round s) bytes).count)
              (step_match ss x hit (λ e. let f : ⊥ = omega (arith, e, h) in f))
            ∙ scan_short bytes (round (record ss { state = ss.state + 1 })) (omega (arith, h))
      ]
]

scan_misses :
    (x y : ℕ) (rest : List ℕ)
    → x ≢ y
    → (scan (sstring_init (x ∷ y ∷ rest)) (x ∷ x ∷ y ∷ rest)).count ≡ 0
unfolding sstring_init
scan_misses x y rest ne =
    let ss = sstring_init (x ∷ y ∷ rest) in
    let one = round (record ss { state = 1 }) in
    let two = round (record one { state = 0 }) in
    ap (λ s. s.count) (scan-cons x (x ∷ y ∷ rest) ss refl)
    ∙ ap (λ s. (scan (round s) (x ∷ y ∷ rest)).count)
        (step_match ss x refl (λ e. let f : ⊥ = omega (arith, e) in f))
    ∙ ap (λ s. s.count) (scan-cons x (y ∷ rest) one refl)
    ∙ ap (λ s. (scan (round s) (y ∷ rest)).count) (step_other one x ne)
    ∙ scan_short (y ∷ rest) two (omega arith)

-- A pattern whose first two bytes differ is passed over where its first byte stands before it once
-- more: the search of that text returns, and notes nothing.
pub sstring_compute_misses :
    (x y : ℕ) (rest : List ℕ)
    → x ≢ y
    → (ss : Sstring) × (sstring_compute (sstring_init (x ∷ y ∷ rest)) (x ∷ x ∷ y ∷ rest)
        ≡ returned ss)
      × (ss.count ≡ 0)
sstring_compute_misses x y rest ne = (
  scan (sstring_init (x ∷ y ∷ rest)) (x ∷ x ∷ y ∷ rest),
  sstring_compute-init (x ∷ y ∷ rest) (x ∷ x ∷ y ∷ rest) (omega arith),
  scan_misses x y rest ne,
)
