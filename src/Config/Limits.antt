-- ===== src/Config/Limits.antt =====
-- ini_parser.c: what the tests of `asgard_config_read` let through.
use spsc.Prelude.{
  returned-injective, ℕ, suc, ◌≤◌, ◌≡◌, ◌≢◌, ◌⊎◌, inl, inr, refl, ap, sym, ◌∙◌, arith, Bool, true,
  false, Option, none, List, Run, returned, exited, check, ◌>>◌, ℤ, pos, negsuc, pos_part, neg_part,
  ltb_ℤ, if◌then◌else◌, ◌&&◌, ◌||◌, not, Bool-cases,
}
use mathlib.Core.Path.{subst}
use spsc.Config.Read.{JaneConfig, ThorConfig, eq_ℤ, unset, buffers_number, check_configs}

-- a number of buffers that was not refused
abbrev pub InRange : ℤ → Type 0
InRange b = (b ≡ pos 0) ⊎ ((n : ℕ) × (b ≡ pos n) × (2 ≤ n) × (n ≤ 102399))

in_range : (value : ℤ) → (ltb_ℤ value (pos 2) || ltb_ℤ (pos 102399) value) ≡ false → InRange value
in_range (pos n) h = inr (n, refl, ground arith, ground arith)
in_range (negsuc n) h = absurd (ground arith)

checked :
    (value : ℤ) {b : ℤ}
    → (if ltb_ℤ value (pos 2) || ltb_ℤ (pos 102399) value then exited else returned value)
      ≡ returned b
    → InRange b
checked value e = elim (Bool-cases (ltb_ℤ value (pos 2) || ltb_ℤ (pos 102399) value)) [
  | inl out ↦ absurd (cc (ap (λ t. if t then exited else returned value) (sym out) ∙ e))
  | inr ok ↦
      subst InRange
        (returned-injective (ap (λ t. if t then exited else returned value) (sym ok) ∙ e))
        (in_range value ok)
]

pub buffers_number-InRange :
    (old : ℤ) (its_key : Bool) (value : ℤ) {b : ℤ}
    → InRange old
    → buffers_number old its_key value ≡ returned b
    → InRange b
unfolding buffers_number
buffers_number-InRange old its_key value {b} h e = elim (Bool-cases (eq_ℤ (pos 0) old && its_key)) [
  | inr kept ↦
      subst InRange
        (returned-injective (
          ap
            (λ t.
              if t
              then (if ltb_ℤ value (pos 2) || ltb_ℤ (pos 102399) value
                  then exited
                  else returned value)
              else returned old)
            (sym kept)
          ∙ e))
        h
  | inl taken ↦
      let e' =
        ap
          (λ t.
            if t
            then (if ltb_ℤ value (pos 2) || ltb_ℤ (pos 102399) value
                then exited
                else returned value)
            else returned old)
          (sym taken)
        ∙ e in
      checked value e'
]

or-false : (a b : Bool) → (a || b) ≡ false → (a ≡ false) × (b ≡ false)
or-false true b h = absurd (ground arith)
or-false false b h = (refl, h)

not-false : (b : Bool) → not b ≡ false → b ≡ true
not-false true h = refl
not-false false h = absurd (ground arith)

and-not-false : (a b : Bool) → a ≡ false → (not a && not b) ≡ false → b ≡ true
and-not-false true b e h = absurd (ground arith)
and-not-false false b e h = not-false b h

-- a check that fails ends the checks
if-passes :
    {b : Bool} {m : Run Bool}
    → (if b then returned false else m) ≡ returned true
    → (b ≡ false) × (m ≡ returned true)
if-passes {b = true} h = absurd (cc h)
if-passes {b = false} h = (refl, h)

same_buffers :
    (a b : ℤ)
    → InRange a
    → not (ltb_ℤ (pos 0) a && eq_ℤ a b) ≡ false
    → ((n : ℕ) × (a ≡ pos n) × (2 ≤ n) × (n ≤ 102399)) × (b ≡ a)
same_buffers (pos a) (pos b) (inl e) h = absurd (let z : a ≡ 0 = ap pos_part e in ground arith)
same_buffers (pos a) (pos b) (inr r) h = (r, ap pos (ground arith))
same_buffers (pos a) (negsuc b) r h = absurd (ground arith)
same_buffers (negsuc a) b r h = absurd (ground arith)

eq_ℤ→eq : (a b : ℤ) → eq_ℤ a b ≡ true → a ≡ b
eq_ℤ→eq (pos a) (pos b) h = ap pos (ground arith)
eq_ℤ→eq (pos a) (negsuc b) h = absurd (ground arith)
eq_ℤ→eq (negsuc a) (pos b) h = absurd (ground arith)
eq_ℤ→eq (negsuc a) (negsuc b) h = ap negsuc (ground arith)

eq_ℤ-neq : (a b : ℤ) → eq_ℤ a b ≡ false → b ≢ a
eq_ℤ-neq (pos a) (pos b) h e = (let z : b ≡ a = ap pos_part e in ground arith)
eq_ℤ-neq (pos a) (negsuc b) h e = omega (arith, ap neg_part e)
eq_ℤ-neq (negsuc a) (pos b) h e = omega (arith, ap neg_part e)
eq_ℤ-neq (negsuc a) (negsuc b) h e = (let z : suc b ≡ suc a = ap neg_part e in ground arith)

ports : (a b : ℤ) → (eq_ℤ (pos 0) a || not (eq_ℤ a b)) ≡ false → (a ≢ pos 0) × (b ≡ a)
ports a b h =
    let (z, e) = or-false (eq_ℤ (pos 0) a) (not (eq_ℤ a b)) h in
    (eq_ℤ-neq (pos 0) a z, sym (eq_ℤ→eq a b (not-false (eq_ℤ a b) e)))

-- a search that is on has passed the last assertion
search :
    (do_search : ℤ) (pattern : Option (List ℕ))
    → (not (eq_ℤ (pos 0) do_search) && not (eq_ℤ (pos 1) do_search)) ≡ false
    → (if eq_ℤ (pos 1) do_search
        then (check (not (unset pattern)) >> returned true)
        else returned true)
      ≡ returned true
    → (do_search ≡ pos 0) ⊎ ((do_search ≡ pos 1) × (pattern ≢ none))
search d pattern h e = elim (Bool-cases (eq_ℤ (pos 0) d)) [
  | inl off ↦ inl (sym (eq_ℤ→eq (pos 0) d off))
  | inr no_off ↦
      let on : eq_ℤ (pos 1) d ≡ true = and-not-false (eq_ℤ (pos 0) d) (eq_ℤ (pos 1) d) no_off h in
      inr (
        sym (eq_ℤ→eq (pos 1) d on),
        λ p. absurd (
            cc (
              ap (λ b. if b then (check (not (unset pattern)) >> returned true) else returned true)
                    (sym on)
                  ∙ e,
              ap (λ o. check (not (unset o)) >> returned true) p,
            )),
      )
]

pub check_configs-true :
    (jane : JaneConfig) (thor : ThorConfig)
    → InRange jane.buffers
    → check_configs jane thor ≡ returned true
    → (((n : ℕ) × (jane.buffers ≡ pos n) × (2 ≤ n) × (n ≤ 102399)) × (thor.buffers ≡ jane.buffers))
      × (((thor.do_search ≡ pos 0) ⊎ ((thor.do_search ≡ pos 1) × (thor.pattern ≢ none)))
          × ((jane.port ≢ pos 0) × (thor.port ≡ jane.port)))
unfolding check_configs
check_configs-true jane thor range e =
    let buffers = if-passes e in
    let use_buffers = if-passes (buffers.1) in
    let on = if-passes (use_buffers.1) in
    let port = if-passes (on.1) in
    (
      same_buffers jane.buffers thor.buffers range (buffers.0),
      (search thor.do_search thor.pattern (on.0) (port.1), ports jane.port thor.port (port.0)),
    )

pub either {ℓ} :
    {A : Type 0} (b : Bool) (P : A → Type ℓ) {m : Run A} {a a' : A}
    → P a
    → ((x : A) → m ≡ returned x → P x)
    → (if b then m else returned a) ≡ returned a'
    → P a'
either true P {a' = a'} h f e = f a' e
either false P h f e = subst P (returned-injective e) h
