-- ===== src/Asgard/Transfer.antt =====
-- The loop that `shm_alloc` and `shm_dealloc` share, on pools that are numbers followed by zeros.
use mathlib.Core.Path.{ap₂}
use mathlib.Core.List.{reverse_aux}
use spsc.Prelude.{
  ℕ, zero, suc, ◌+◌, ◌-◌, ◌≡◌, refl, ap, sym, ◌∙◌, List, [], ◌∷◌, ◌++◌, arith, length, get_or, set,
  replicate, get_or-append, set-append, length-append, length-replicate, append_assoc,
}
use spsc.Asgard.{transfer}

abbrev pub zeros : ℕ → List ℕ
zeros n = replicate n 0

zeros-cons : (n : ℕ) (xs : List ℕ) → zeros (suc n) ++ xs ≡ zeros n ++ 0 ∷ xs
zeros-cons zero xs = refl
zeros-cons (suc n) xs = ap (◌∷◌ 0) (zeros-cons n xs)

pub zeros-append : (m n : ℕ) → zeros m ++ zeros n ≡ zeros (m + n)
zeros-append zero n = let e : n ≡ 0 + n = omega arith in ap zeros e
zeros-append (suc m) n =
    let e : suc (m + n) ≡ suc m + n = omega arith in ap (◌∷◌ 0) (zeros-append m n) ∙ ap zeros e

-- Moving `given` from the front of one pool: zeros take its place, and it stands, turned round,
-- at the end of the other pool.
pub transfer_lem :
    (given left kept taken : List ℕ) (spare rounds i members : ℕ)
    → rounds ≡ length given
    → i ≡ length taken
    → members ≡ length kept + length given + spare + length taken
    → transfer rounds i members
        (zeros i ++ (given ++ left))
        (kept ++ (zeros (length given + spare) ++ taken))
      ≡ (zeros (i + length given) ++ left, kept ++ (zeros spare ++ reverse_aux given taken))
unfolding transfer
transfer_lem [] left kept taken spare zero i members er ei em =
    let e : 0 + spare ≡ spare = omega arith in
    let e' : i ≡ i + 0 = omega arith in
    ap₂ (λ a b. (zeros a ++ left, kept ++ (zeros b ++ taken))) e' e
transfer_lem [] left kept taken spare (suc rounds) i members er ei em = absurd (omega arith)
transfer_lem (g ∷ given) left kept taken spare zero i members er ei em = absurd (omega arith)
transfer_lem (g ∷ given) left kept taken spare (suc rounds) i members er ei em =
    let n = length given + spare in
    let read : get_or (zeros i ++ (g ∷ (given ++ left))) i 0 ≡ g =
      get_or-append (zeros i) (given ++ left) g i 0 (sym (length-replicate i zero)) in
    let cleared : set (zeros i ++ (g ∷ (given ++ left))) i 0 ≡ zeros (i + 1) ++ (given ++ left) =
      set-append (zeros i) (given ++ left) g i 0 (sym (length-replicate i zero))
      ∙ sym (zeros-cons i (given ++ left))
      ∙ ap (λ m. zeros m ++ (given ++ left)) (let e : suc i ≡ i + 1 = omega arith in e) in
    let written : set (kept ++ (zeros (suc (length given) + spare) ++ taken)) (members - 1 - i) g
        ≡ kept ++ (zeros n ++ g ∷ taken) =
      let e : suc (length given) + spare ≡ suc n = omega arith in
      rw (e, zeros-cons n taken, ← append_assoc kept (zeros n) (0 ∷ taken))
        (set-append (kept ++ zeros n) taken 0 (members - 1 - i) g
            (omega (arith, length-append kept (zeros n), length-replicate n zero))
          ∙ append_assoc kept (zeros n) (g ∷ taken)) in
    let count : i + 1 + length given ≡ i + length (g ∷ given) = omega arith in
    rw (read, cleared, written)
      (transfer_lem given left kept (g ∷ taken) spare rounds (i + 1) members (omega arith)
          (omega arith) (omega arith)
        ∙ ap (λ m. (zeros m ++ left, kept ++ (zeros spare ++ reverse_aux given (g ∷ taken)))) count)
