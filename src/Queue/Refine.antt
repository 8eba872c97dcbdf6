-- ===== src/Queue/Refine.antt =====
-- The ring of q.c holds a sequence, and answers as that sequence does.
use spsc.Prelude.{
  ℕ, zero, suc, ◌+◌, ◌≤◌, ◌<◌, ◌≡◌, refl, sym, ◌∙◌, ap, ◌≢◌, ◌⊎◌, inl, inr, Bool-cases, true, false,
  Option, none, some, List, [], ◌∷◌, ◌++◌, arith, ◌==◌, length, get_elem?, set, length-set,
  length-append, length-replicate, get_elem?-set_self, get_elem?-set_ne,
}
use mathlib.Core.Path.{ap₂}
use spsc.Queue.{Elem, Queue, add_counter, q_init, q_add, q_remove, slot}
use spsc.Queue.Fifo.{Call, add, remove, added, removed, serve, run, fifo_serve, fifo_run}

-- the index `n` steps after `i`
unfoldable pub forward : ℕ → ℕ → ℕ → ℕ
forward max i zero = i
forward max i (suc n) = forward max (add_counter max i) n

-- the slots from `i` on, going round, hold the elements in order
abbrev pub Window : ℕ → List (Option Elem) → ℕ → List Elem → Type 0
Window max e i [] = Unit {0}
Window max e i (x ∷ xs) = (get_elem? e i ≡ some (some x)) × Window max e (add_counter max i) xs

-- The ring `q` is well formed and holds `xs`, oldest first.
pub record Holds (q : Queue) (xs : List Elem) : Type 0 where
  pub slots : length q.e ≡ q.max_size
  pub tail_in : q.tail < q.max_size
  pub size : q.curr_size ≡ length xs
  pub fits : length xs ≤ q.max_size
  pub next_free : q.head ≡ forward q.max_size q.tail (length xs)
  pub window : Window q.max_size q.e q.tail xs

add_counter_in : (max i : ℕ) → i < max → add_counter max i < max
unfolding add_counter
add_counter_in max i h = ground arith

add_counter-cases :
    (max i : ℕ)
    → ((add_counter max i ≡ 0) × (max ≤ i + 1)) ⊎ ((add_counter max i ≡ i + 1) × (i + 1 < max))
unfolding add_counter
add_counter-cases max i = ground arith

forward_in : (max i n : ℕ) → i < max → forward max i n < max
unfolding forward
forward_in max i zero h = h
forward_in max i (suc n) h = forward_in max (add_counter max i) n (add_counter_in max i h)

forward-suc : (max i n : ℕ) → forward max i (suc n) ≡ add_counter max (forward max i n)
unfolding forward
forward-suc max i zero = refl
forward-suc max i (suc n) = forward-suc max (add_counter max i) n

-- `n` steps from `i`, in closed form
forward_closed :
    (max i n : ℕ) → i < max → n ≤ max → (forward max i n ≡ i + n) ⊎ (forward max i n + max ≡ i + n)
forward_closed max i zero h le = unfold forward in omega arith
forward_closed max i (suc n) h le = ground (
  arith,
  forward-suc max i n,
  forward_closed max i n h (omega arith),
  forward_in max i n h,
  add_counter-cases max (forward max i n),
)

-- Fewer than `max` steps do not come back to the start.
forward-ne : (max i n : ℕ) → i < max → suc n < max → forward max i (suc n) ≢ i
forward-ne max i n h lt e = absurd (ground (arith, forward_closed max i (suc n) h (omega arith)))

-- A write to the slot behind the window appends to it.
Window-set :
    (max : ℕ) (e : List (Option Elem)) (i : ℕ) (xs : List Elem) (x : Elem) (j : ℕ)
    → length e ≡ max
    → i < max
    → length xs < max
    → j ≡ forward max i (length xs)
    → Window max e i xs
    → Window max (set e j (some x)) i (xs ++ x ∷ [])
unfolding forward
Window-set max e i [] x j le hi lt ej w =
    (rw ej (get_elem?-set_self e i (some x) (omega arith)), tt)
Window-set max e i (y ∷ ys) x j le hi lt ej w = (
  get_elem?-set_ne e (some x) (λ p. forward-ne max i (length ys) hi lt (sym ej ∙ p)) ∙ w.0,
  Window-set max e (add_counter max i) ys x j le (add_counter_in max i hi) (omega arith) ej w.1,
)

-- A ring that `q_init` returns holds nothing.
pub q_init-Holds : (max_size : ℕ) {q : Queue} → q_init max_size ≡ some q → Holds q []
unfolding q_init forward
q_init-Holds max_size h =
    let empty_slot : Option Elem = none in ground (arith, length-replicate max_size empty_slot)

pub q_add_full :
    {q : Queue} (xs : List Elem) (line sz : ℕ)
    → Holds q xs
    → length xs ≡ q.max_size
    → q_add q line sz ≡ (false, q)
unfolding q_add
q_add_full xs line sz h e = ground arith

pub q_add-Holds :
    {q : Queue} (xs : List Elem) (line sz : ℕ)
    → Holds q xs
    → length xs < q.max_size
    → ((q_add q line sz).0 ≡ true)
      × Holds (q_add q line sz).1 (xs ++ record { sz = sz; line = line } ∷ [])
unfolding q_add
q_add-Holds {q} xs line sz h lt =
    let open_slot : (q.curr_size == q.max_size) ≡ false = ground arith in
    let x : Elem = record { sz = sz; line = line } in
    let one_more : length (xs ++ x ∷ []) ≡ suc (length xs) =
      omega (arith, length-append xs (x ∷ [])) in
    rw open_slot (
      refl,
      record {
        slots = length-set q.e q.head (some x) ∙ h.slots;
        tail_in = h.tail_in;
        size = omega (arith, one_more, h.size);
        fits = omega (arith, one_more);
        next_free =
            ap (add_counter q.max_size) h.next_free
            ∙ sym (forward-suc q.max_size q.tail (length xs))
            ∙ ap (forward q.max_size q.tail) (sym one_more);
        window =
            Window-set q.max_size q.e q.tail xs x q.head h.slots h.tail_in lt h.next_free h.window;
      },
    )

pub q_remove-Holds :
    {q : Queue} (x : Elem) (xs : List Elem)
    → Holds q (x ∷ xs)
    → ((q_remove q).0 ≡ some x) × Holds (q_remove q).1 xs
unfolding q_remove forward
q_remove-Holds {q} x xs h =
    let busy : (q.curr_size == 0) ≡ false = ground (arith, h.size) in
    rw (busy, slot, h.window.0)
      (
        refl,
        record {
          slots = h.slots;
          tail_in = add_counter_in q.max_size q.tail h.tail_in;
          size = omega (arith, h.size);
          fits = omega (arith, h.fits);
          next_free = h.next_free;
          window = h.window.1;
        },
      )

pub max_size-q_init : (max_size : ℕ) {q : Queue} → q_init max_size ≡ some q → q.max_size ≡ max_size
unfolding q_init
max_size-q_init max_size h = ground arith

pub max_size-q_add : (q : Queue) (line sz : ℕ) → (q_add q line sz).1.max_size ≡ q.max_size
unfolding q_add
max_size-q_add q line sz = ground arith

max_size-q_remove : (q : Queue) → (q_remove q).1.max_size ≡ q.max_size
unfolding q_remove
max_size-q_remove q = ground arith

q_remove_empty : {q : Queue} → Holds q [] → q_remove q ≡ (none, q)
unfolding q_remove
q_remove_empty {q} h = ground (arith, h.size)

-- One call keeps the correspondence, and answers as the sequence does.
pub serve-Holds :
    {q : Queue} (xs : List Elem) (c : Call)
    → Holds q xs
    → ((serve q c).0 ≡ (fifo_serve q.max_size xs c).0)
      × Holds (serve q c).1 (fifo_serve q.max_size xs c).1
      × ((serve q c).1.max_size ≡ q.max_size)
unfolding serve fifo_serve
serve-Holds {q} xs (add line sz) h = elim (Bool-cases (length xs == q.max_size)) [
  | inl full ↦ rw (full, q_add_full xs line sz h (ground arith)) (refl, h, refl)
  | inr room ↦
      let step = q_add-Holds xs line sz h (ground (arith, h.fits)) in
      rw room (ap added step.0, step.1, max_size-q_add q line sz)
]
serve-Holds {q} [] remove h = rw (q_remove_empty h) (refl, h, refl)
serve-Holds {q} (x ∷ xs) remove h =
    let step = q_remove-Holds x xs h in (ap removed step.0, step.1, max_size-q_remove q)

-- A ring that holds `xs` answers every sequence of `q_add` and `q_remove` calls as the bounded
-- first-in first-out sequence `xs` does.
pub run-refines :
    (calls : List Call) {q : Queue} (xs : List Elem)
    → Holds q xs
    → run q calls ≡ fifo_run q.max_size xs calls
unfolding run fifo_run
run-refines [] xs h = refl
run-refines (c ∷ calls) {q} xs h =
    let step = serve-Holds xs c h in
    ap₂ ◌∷◌ step.0 (
      run-refines calls (fifo_serve q.max_size xs c).1 step.1
      ∙ ap (λ cap. fifo_run cap (fifo_serve q.max_size xs c).1 calls) step.2)

-- A ring that `q_init` returns answers every sequence of `q_add` and `q_remove` calls as the first-in
-- first-out sequence that starts empty and takes at most `max_size` elements does.
pub q_init-refines :
    (max_size : ℕ) (calls : List Call) {q : Queue}
    → q_init max_size ≡ some q
    → run q calls ≡ fifo_run max_size [] calls
q_init-refines max_size calls h =
    run-refines calls [] (q_init-Holds max_size h)
    ∙ ap (λ cap. fifo_run cap [] calls) (max_size-q_init max_size h)
