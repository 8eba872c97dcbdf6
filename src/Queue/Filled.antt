-- ===== src/Queue/Filled.antt =====
-- The slots that `print_q` of q.c reads: no `NULL` among them.
use spsc.Prelude.{
  ℕ, zero, suc, ◌+◌, ◌≤◌, ◌<◌, ◌≡◌, ◌⊎◌, inl, inr, refl, ap, sym, ◌∙◌, arith, Bool-cases, Option,
  none, some, List, [], ◌∷◌, ◌++◌, ◌==◌, length, length-set, length-replicate, get_elem?, set,
  get_elem?-set_self, get_elem?-set_ne, dec_lt, ℕ_discrete, returned,
}
use spsc.Queue.{Elem, Queue, add_counter, q_init, q_add, q_remove, slot}
use spsc.Queue.Fifo.{Call, add, remove, serve}
use spsc.Queue.Print.{print_elem, print_slot, print_from, print_q}

-- the ring after the calls
unfoldable pub after : Queue → List Call → Queue
after q [] = q
after q (c ∷ calls) = after (serve q c).1 calls

-- the slots before the `n`-th hold elements
abbrev Full : List (Option Elem) → ℕ → Type 0
Full e n = (i : ℕ) → i < n → (p : Elem) × (get_elem? e i ≡ some (some p))

-- Once the ring has been written round, every slot holds an element; until then those before `head` do.
record IsFilled (q : Queue) (n : ℕ) : Type 0 where
  slots : length q.e ≡ q.max_size
  some_slot : 0 < q.max_size
  fits : n ≤ q.max_size
  size : q.curr_size ≤ n
  head_in : q.head < q.max_size
  next : (n ≡ q.head) ⊎ (n ≡ q.max_size)
  full : Full q.e n

q_init-IsFilled : (max_size : ℕ) {q : Queue} → q_init max_size ≡ some q → IsFilled q 0
unfolding q_init
q_init-IsFilled max_size h =
    let empty_slot : Option Elem = none in ground (arith, length-replicate max_size empty_slot)

Full-set :
    (e : List (Option Elem)) (n j : ℕ) (p : Elem)
    → j < length e
    → Full e n
    → Full (set e j (some p)) n
Full-set e n j p inside h i lt = elim (ℕ_discrete j i) [
  | yes same ↦ (
    p,
    ap (λ k. get_elem? (set e j (some p)) k) (sym same) ∙ get_elem?-set_self e j (some p) inside,
  )
  | no other ↦ let (r, there) = h i lt in (r, get_elem?-set_ne e (some p) other ∙ there)
]

Full-set_next :
    (e : List (Option Elem)) (n : ℕ) (p : Elem)
    → n < length e
    → Full e n
    → Full (set e n (some p)) (suc n)
Full-set_next e n p inside h i lt = elim (dec_lt i n) [
  | yes before ↦ Full-set e n n p inside h i before
  | no late ↦
      let last : n ≡ i = omega (arith, late) in
      (
        p,
        ap (λ k. get_elem? (set e n (some p)) k) (sym last)
            ∙ get_elem?-set_self e n (some p) inside,
      )
]

add_counter_next :
    (max n : ℕ)
    → n < max
    → (add_counter max n < max) × ((suc n ≡ add_counter max n) ⊎ (suc n ≡ max))
unfolding add_counter
add_counter_next max n h = ground arith

add_counter_in : (max i : ℕ) → i < max → add_counter max i < max
unfolding add_counter
add_counter_in max i h = ground arith

q_add-IsFilled :
    (q : Queue) (n line sz : ℕ) → IsFilled q n → (n' : ℕ) × IsFilled (q_add q line sz).1 n'
unfolding q_add
q_add-IsFilled q n line sz h = elim (Bool-cases (q.curr_size == q.max_size)) [
  | inl full ↦ (n, rw full h)
  | inr room ↦
      let p : Elem = record { sz = sz; line = line } in
      let space : suc q.curr_size ≤ q.max_size = ground (arith, room, h.size, h.fits) in
      let inside : q.head < length q.e = omega (arith, h.head_in, h.slots) in
      elim h.next [
        | inl start ↦
            let following = add_counter_next q.max_size q.head h.head_in in
            (
              suc q.head,
              rw room (record {
                slots = length-set q.e q.head (some p) ∙ h.slots;
                some_slot = h.some_slot;
                fits = h.head_in;
                size = omega (arith, h.size, start);
                head_in = following.0;
                next = following.1;
                full =
                    Full-set_next q.e q.head p inside (λ i lt. h.full i (omega (arith, start, lt)));
              }),
            )
        | inr round ↦ (
          n,
          rw room (record {
            slots = length-set q.e q.head (some p) ∙ h.slots;
            some_slot = h.some_slot;
            fits = h.fits;
            size = omega (arith, space, round);
            head_in = add_counter_in q.max_size q.head h.head_in;
            next = inr round;
            full = Full-set q.e n q.head p inside h.full;
          }),
        )
      ]
]

q_remove-IsFilled : (q : Queue) (n : ℕ) → IsFilled q n → IsFilled (q_remove q).1 n
unfolding q_remove
q_remove-IsFilled q n h = elim (Bool-cases (q.curr_size == 0)) [
  | inl bare ↦ rw bare h
  | inr busy ↦ rw busy (record {
    slots = h.slots;
    some_slot = h.some_slot;
    fits = h.fits;
    size = omega (arith, h.size);
    head_in = h.head_in;
    next = h.next;
    full = h.full;
  })
]

after-IsFilled :
    (calls : List Call) (q : Queue) (n : ℕ) → IsFilled q n → (n' : ℕ) × IsFilled (after q calls) n'
unfolding after serve
after-IsFilled [] q n h = (n, h)
after-IsFilled (add line sz ∷ calls) q n h =
    let (n', h') = q_add-IsFilled q n line sz h in after-IsFilled calls (q_add q line sz).1 n' h'
after-IsFilled (remove ∷ calls) q n h =
    after-IsFilled calls (q_remove q).1 n (q_remove-IsFilled q n h)

module _ (print_int : ℕ → List ℕ) (text_at : ℕ → List ℕ) where
  print_from-Full :
      (rounds i n : ℕ) (e : List (Option Elem))
      → Full e n
      → i + rounds ≤ n
      → (values : List ℕ) × (print_from print_int text_at rounds i e ≡ returned values)
  unfolding print_from
  print_from-Full zero i n e h le = ([], refl)
  print_from-Full (suc rounds) i n e h le =
      let (p, here) = h i (omega arith) in
      let found : slot e i ≡ some p = ap (λ s. elim s [ none ↦ none | some there ↦ there ]) here in
      let (values, rest) = print_from-Full rounds (i + 1) n e h (omega arith) in
      (
        print_elem print_int text_at i p ++ values,
        ap (print_slot print_int text_at i (print_from print_int text_at rounds (i + 1) e)) found
            ∙ ap (λ m. print_slot print_int text_at i m (some p)) rest,
      )

  -- After any calls of `q_add` and `q_remove` on a ring that `q_init` returned, `print_q` returns: no
  -- slot that it reads is `NULL`.
  pub print_q_returns :
      (max_size : ℕ) (calls : List Call) {q : Queue}
      → q_init max_size ≡ some q
      → (printed : List ℕ) × (print_q print_int text_at (after q calls) ≡ returned printed)
  unfolding print_q
  print_q_returns max_size calls {q} h =
      let (n, filled) = after-IsFilled calls q 0 (q_init-IsFilled max_size h) in
      let (values, all) =
        print_from-Full (after q calls).curr_size 0 n (after q calls).e filled.full
          (omega (arith, filled.size)) in
      rw all (_, refl)
