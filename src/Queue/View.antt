-- ===== src/Queue/View.antt =====
-- The ring of q.c as its clients see it: two rings are one when no sequence of calls tells them apart.
use mathlib.Core.Equiv.{IsEquiv, Iso, iso_to_equiv}
use mathlib.Core.HLevel.{Σ_prop_path}
use mathlib.Core.Path.{ap₂, subst}
use mathlib.Core.Quot
use mathlib.Core.Quot.{Quot, Quot-set}
use native.Mathlib.Bridge.{le_prop}
use spsc.Prelude.{
  ℕ, zero, suc, ◌+◌, ◌≤◌, ◌<◌, ◌≡◌, refl, ap, sym, ◌∙◌, arith, true, some, List, [], ◌∷◌, ◌++◌,
  append_assoc, append-nil, length, length-append, ltb,
}
use spsc.Queue.{Elem, Queue, q_init, q_add}
use spsc.Queue.Fifo.{Call, remove, run, fifo_run, fifo_serve}
use spsc.Queue.Refine.{
  Holds, q_init-Holds, q_add-Holds, run-refines, max_size-q_add, max_size-q_init,
}

-- a well-formed ring with `max_size` places, and what it holds
abbrev pub Ring : ℕ → Type 0
Ring max_size = (q : Queue) × (xs : List Elem) × Holds q xs × (q.max_size ≡ max_size)

-- no sequence of calls tells them apart
abbrev pub Alike : {max_size : ℕ} → Ring max_size → Ring max_size → Type 0
Alike r s = (calls : List Call) → run r.0 calls ≡ run s.0 calls

-- the abstract ring
abbrev pub View : ℕ → Type 0
View max_size = Quot (Alike {max_size = max_size})

abbrev pub Bounded : ℕ → Type 0
Bounded max_size = (xs : List Elem) × (length xs ≤ max_size)

abbrev removes : ℕ → List Call
removes zero = []
removes (suc n) = remove ∷ removes n

-- What comes out tells what is in a sequence.
removes-tell :
    (cap n : ℕ) (xs ys : List Elem)
    → length xs ≤ n
    → length ys ≤ n
    → fifo_run cap xs (removes n) ≡ fifo_run cap ys (removes n)
    → xs ≡ ys
unfolding fifo_run fifo_serve
removes-tell cap n [] [] h h' e = refl
removes-tell cap zero (x ∷ xs) ys h h' e = absurd (omega arith)
removes-tell cap zero [] (y ∷ ys) h h' e = absurd (omega arith)
removes-tell cap (suc n) [] (y ∷ ys) h h' e = cc
removes-tell cap (suc n) (x ∷ xs) [] h h' e = cc
removes-tell cap (suc n) (x ∷ xs) (y ∷ ys) h h' e =
    ap₂ ◌∷◌ (cc) (removes-tell cap n xs ys (omega (arith, h)) (omega (arith, h')) (cc))

Alike-eq : {max_size : ℕ} (r s : Ring max_size) → Alike r s → r.1 ≡ s.1
Alike-eq {max_size} (q, xs, h, size) (q', xs', h', size') alike =
    let calls = removes (length xs + length xs') in
    removes-tell max_size (length xs + length xs') xs xs' (omega arith) (omega arith) (
      ap (λ cap. fifo_run cap xs calls) (sym size)
      ∙ sym (run-refines calls xs h)
      ∙ alike calls
      ∙ run-refines calls xs' h'
      ∙ ap (λ cap. fifo_run cap xs' calls) size')

eq-Alike : {max_size : ℕ} (r s : Ring max_size) → r.1 ≡ s.1 → Alike r s
eq-Alike {max_size} (q, xs, h, size) (q', xs', h', size') same calls =
    run-refines calls xs h
    ∙ ap₂ (λ cap l. fifo_run cap l calls) (size ∙ sym size') same
    ∙ sym (run-refines calls xs' h')

pub Bounded-set : (max_size : ℕ) → IsSet (Bounded max_size)
Bounded-set max_size = hlevel (le_prop)

abbrev pub held : {max_size : ℕ} → Ring max_size → Bounded max_size
held (q, xs, h, size) = (xs, omega (arith, h.fits, size))

pub Alike-held : {max_size : ℕ} (r s : Ring max_size) → Alike r s → held r ≡ held s
Alike-held r s alike = Σ_prop_path (λ xs. le_prop) (Alike-eq r s alike)

-- the sequence that a ring stands for
unfoldable pub contents : (max_size : ℕ) → View max_size → Bounded max_size
contents max_size = Quot.lift (Bounded-set max_size) held Alike-held

-- a ring that has room takes any more elements
filled_up :
    (q : Queue) (xs ys : List Elem)
    → Holds q xs
    → length xs + length ys ≤ q.max_size
    → (q' : Queue) × Holds q' (xs ++ ys) × (q'.max_size ≡ q.max_size)
filled_up q xs [] h room = (q, subst (Holds q) (sym (append-nil xs)) h, refl)
filled_up q xs (y ∷ ys) h room =
    let q₁ = (q_add q y.line y.sz).1 in
    let (done, h₁) = q_add-Holds xs y.line y.sz h (omega (arith, room)) in
    let kept : q₁.max_size ≡ q.max_size = max_size-q_add q y.line y.sz in
    let (q', h', size) =
      filled_up q₁ (xs ++ y ∷ []) ys h₁ (omega (arith, room, kept, length-append xs (y ∷ []))) in
    (q', subst (Holds q') (append_assoc xs (y ∷ []) ys) h', size ∙ kept)

q_init-some : (max_size : ℕ) → 0 < max_size → (q : Queue) × (q_init max_size ≡ some q)
unfolding q_init
q_init-some max_size h = let allowed : ltb 0 max_size ≡ true = ground arith in rw allowed (_, refl)

-- a ring for each sequence that fits
Ring-of : (max_size : ℕ) → 0 < max_size → (b : Bounded max_size) → (r : Ring max_size) × (r.1 ≡ b.0)
Ring-of max_size some_slot (xs, fits) =
    let (q₀, e) = q_init-some max_size some_slot in
    let size = max_size-q_init max_size e in
    let (q, h, kept) = filled_up q₀ [] xs (q_init-Holds max_size e) (omega (arith, fits, size)) in
    ((q, xs, h, kept ∙ size), refl)

-- For a ring with at least one place: each sequence of at most `max_size` elements is what one ring
-- stands for, and only one, up to what calls of `q_add` and `q_remove` can tell apart.
pub contents-IsEquiv : (max_size : ℕ) → 0 < max_size → IsEquiv (contents max_size)
unfolding contents
contents-IsEquiv max_size some_slot =
    let iso : Iso (View max_size) (Bounded max_size) = record {
      fun = contents max_size;
      inv = λ b. Quot.mk ((Ring-of max_size some_slot b).0);
      rinv = λ b. Σ_prop_path (λ xs. le_prop) ((Ring-of max_size some_slot b).1);
      linv =
          Quot.ind (λ v. Quot-set _ _)
            (λ r. Quot.sound (
              eq-Alike ((Ring-of max_size some_slot (held r)).0) r
                ((Ring-of max_size some_slot (held r)).1)));
    } in
    (iso_to_equiv iso).1
