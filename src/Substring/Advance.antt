-- ===== src/Substring/Advance.antt =====
-- One byte of a search in substring.c.
use spsc.Prelude.{
  ◌^◌, ℕ, suc, ◌+◌, ◌-◌, ◌≤◌, ◌<◌, ◌≡◌, ◌≢◌, ap, sym, ◌∙◌, false, List, [], ◌∷◌, ◌++◌, append-nil,
  append_assoc, arith, ℕ_discrete, length, get_or, set, take, length-append, length-set,
  length-take, take-suc, take_all, get_or-set_self, get_or-set_ne,
}
use mathlib.Core.Path.{ap₂, subst}
use spsc.Substring.{Sstring, note, matched, to_int, max_occurance}
use spsc.Substring.Scan.{advance, step_other, step_match, step_end}
use spsc.Substring.Scanned.{Scanned, OccursAt-append, Scanned-room}

module _ (p seen pre : List ℕ) (ss : Sstring) (byte : ℕ) (s : Scanned p seen pre ss)
    (fits : length seen < 2 ^ 31) where
  abbrev pub seen' : List ℕ
  seen' = seen ++ byte ∷ []

  length-seen : length seen' ≡ suc (length seen)
  length-seen = omega (arith, length-append seen (byte ∷ []))

  length-pre : length pre ≤ length seen
  length-pre = omega (arith, ap length s.shape, length-append pre (take ss.state p))

  Scanned-other : Scanned p seen' seen' (record ss { state = 0; total = ss.total + 1 })
  Scanned-other = record {
    pattern = s.pattern;
    states = s.states;
    cap = s.cap;
    slots = s.slots;
    total = omega (arith, s.total, length-seen);
    state = omega (arith, s.state);
    shape = sym (append-nil seen');
    few = s.few;
    flag = s.flag;
    found = λ k lt. OccursAt-append p seen (byte ∷ []) (s.found k lt);
    past = λ k lt. omega (arith, s.past k lt, length-pre, length-seen);
    apart = s.apart;
  }

  module _ (hit : byte ≡ get_or ss.pattern ss.state 0) where
    shape-suc : seen' ≡ pre ++ take (suc ss.state) p
    shape-suc =
        ap₂ (λ a b. a ++ b ∷ []) s.shape (hit ∙ ap (λ q. get_or q ss.state 0) s.pattern)
        ∙ append_assoc pre (take ss.state p) (get_or p ss.state 0 ∷ [])
        ∙ ap (λ t. pre ++ t) (sym (take-suc p ss.state 0 s.state))

    Scanned-match :
        ss.state + 1 ≢ ss.total_states
        → Scanned p seen' pre (record ss { state = ss.state + 1; total = ss.total + 1 })
    Scanned-match ne = record {
      pattern = s.pattern;
      states = s.states;
      cap = s.cap;
      slots = s.slots;
      total = omega (arith, s.total, length-seen);
      state = omega (arith, s.state, s.states);
      shape =
          shape-suc
          ∙ ap (λ n. pre ++ take n p) (let e : suc ss.state ≡ ss.state + 1 = omega arith in e);
      few = s.few;
      flag = s.flag;
      found = λ k lt. OccursAt-append p seen (byte ∷ []) (s.found k lt);
      past = s.past;
      apart = s.apart;
    }

    Scanned-end :
        ss.done ≡ false
        → ss.state + 1 ≡ ss.total_states
        → let ss' = note (record ss { state = ss.state + 1 }) in
          Scanned p seen' seen' (record ss' { total = ss.total + 1 })
    unfolding note
    Scanned-end going last =
        let whole : seen' ≡ pre ++ p =
          shape-suc ∙ ap (λ t. pre ++ t) (take_all (suc ss.state) p (omega (arith, s.states))) in
        let here : to_int (ss.total - (ss.total_states - 1)) ≡ length pre = omega (
          arith,
          fits,
          s.total,
          s.states,
          last,
          ap length s.shape,
          length-append pre (take ss.state p),
          length-take ss.state p,
        ) in
        let slot : ss.count < length ss.locations = Scanned-room s going in
        let room : ss.count < max_occurance = omega (arith, s.slots, slot) in
        let at = to_int (ss.total - (ss.total_states - 1)) in
        let self : get_or (set ss.locations ss.count at) ss.count 0 ≡ at =
          get_or-set_self ss.locations ss.count at 0 slot in
        let kept : (k : ℕ)
            → k < ss.count
            → get_or (set ss.locations ss.count at) k 0 ≡ get_or ss.locations k 0 =
          λ k lt. get_or-set_ne ss.locations at 0 (λ e. (let f : ⊥ = omega (arith, lt, e) in f)) in
        let size : length seen' ≡ length pre + length p = ap length whole ∙ length-append pre p in
        record {
          pattern = s.pattern;
          states = s.states;
          cap = s.cap;
          slots = length-set ss.locations ss.count at ∙ s.slots;
          total = omega (arith, s.total, length-seen);
          state = omega (arith, s.state);
          shape = sym (append-nil seen');
          few = omega (arith, room);
          flag = rw (s.cap) (ground arith);
          found = λ k lt. elim (ℕ_discrete k ss.count) [
            | yes last' ↦ record {
              before = pre;
              after = [];
              shape = whole ∙ ap (λ t. pre ++ t) (sym (append-nil p));
              place =
                  sym here
                  ∙ sym self
                  ∙ ap (λ j. get_or (set ss.locations ss.count at) j 0) (sym last');
            }
            | no ne ↦
                rw (kept k (omega (arith, lt, ne)))
                  (OccursAt-append p seen (byte ∷ []) (s.found k (omega (arith, lt, ne))))
          ];
          past = λ k lt. elim (ℕ_discrete k ss.count) [
            | yes last' ↦
                omega (
                  arith,
                  size,
                  here,
                  ap (λ j. get_or (set ss.locations ss.count at) j 0) last',
                  self,
                )
            | no ne ↦
                omega
                  (arith, s.past k (omega (arith, lt, ne)), size, kept k (omega (arith, lt, ne)))
          ];
          apart = λ k lt. elim (ℕ_discrete (suc k) ss.count) [
            | yes last' ↦ omega (
              arith,
              s.past k (omega (arith, last')),
              here,
              kept k (omega (arith, last')),
              ap (λ j. get_or (set ss.locations ss.count at) j 0) last',
              self,
            )
            | no ne ↦ omega (
              arith,
              s.apart k (omega (arith, lt, ne)),
              kept k (omega (arith, lt, ne)),
              kept (suc k) (omega (arith, lt, ne)),
            )
          ];
        }

  counted :
      {ss' : Sstring} {pre' : List ℕ}
      → matched ss byte ≡ ss'
      → Scanned p seen' pre' (record ss' { total = ss'.total + 1 })
      → Scanned p seen' pre' (advance ss byte)
  counted {pre' = pre'} e =
      subst (λ s. Scanned p seen' pre' (record s { total = s.total + 1 })) (sym e)

  pub advance-Scanned : ss.done ≡ false → (pre' : List ℕ) × Scanned p seen' pre' (advance ss byte)
  unfolding note
  advance-Scanned going = elim (ℕ_discrete byte (get_or ss.pattern ss.state 0)) [
    | no ne ↦ (seen', counted (step_other ss byte ne) Scanned-other)
    | yes hit ↦ elim (ℕ_discrete (ss.state + 1) ss.total_states) [
      | yes last ↦ (seen', counted (step_end ss byte hit last) (Scanned-end hit going last))
      | no more ↦ (pre, counted (step_match ss byte hit more) (Scanned-match hit more))
    ]
  ]
