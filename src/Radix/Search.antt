-- ===== src/Radix/Search.antt =====
-- `binarySearch` as it is built: a search from the first element on.
use spsc.Prelude.{
  ℕ, zero, suc, ◌+◌, ◌≤◌, ◌<◌, ◌≡◌, ◌≢◌, refl, ap, ◌∙◌, ◌⊎◌, inl, inr, false, some, List, [], ◌∷◌,
  ◌++◌, arith, length, take, All, pos, negsuc, ◌==◌, ℕ_discrete,
}
use spsc.Radix.{search_from, binary_search}

-- `x` stands behind `pre`, which does not hold it, within the first `r` elements.
pub record FoundAt (arr : List ℕ) (r x : ℕ) (pre post : List ℕ) : Type 0 where
  pub shape : arr ≡ pre ++ x ∷ post
  pub within : length pre < r
  pub first : All (λ y. y ≢ x) pre

search_from_hit :
    (pre post : List ℕ) (i rounds x : ℕ)
    → length pre < rounds
    → All (λ y. y ≢ x) pre
    → search_from (pre ++ x ∷ post) i rounds x ≡ some (pos (i + length pre))
unfolding search_from
search_from_hit pre post i zero x lt h = elim lt [ ]
search_from_hit [] post i (suc rounds) x lt h = ground arith
search_from_hit (y ∷ pre) post i (suc rounds) x lt h =
    let other : (y == x) ≡ false = ground (arith, h.0) in
    let e : i + 1 + length pre ≡ i + suc (length pre) = omega arith in
    rw other
      (search_from_hit pre post (i + 1) rounds x (omega arith) h.1 ∙ ap (λ n. some (pos n)) e)

search_from_miss :
    (arr : List ℕ) (i rounds x : ℕ)
    → rounds ≤ length arr
    → All (λ y. y ≢ x) (take rounds arr)
    → search_from arr i rounds x ≡ some (negsuc 0)
unfolding search_from
search_from_miss [] i zero x le h = refl
search_from_miss [] i (suc rounds) x le h = elim le [ ]
search_from_miss (y ∷ arr) i zero x le h = refl
search_from_miss (y ∷ arr) i (suc rounds) x le h =
    let other : (y == x) ≡ false = ground (arith, h.0) in
    rw other (search_from_miss arr (i + 1) rounds x (omega arith) h.1)

FoundAt-cons :
    (y : ℕ) {arr : List ℕ} {r x : ℕ} {pre post : List ℕ}
    → y ≢ x
    → FoundAt arr r x pre post
    → FoundAt (y ∷ arr) (suc r) x (y ∷ pre) post
FoundAt-cons y ne f = record {
  shape = ap (◌∷◌ y) f.shape;
  within = omega (arith, f.within);
  first = (ne, f.first);
}

-- where `x` stands, if it does
locate :
    (arr : List ℕ) (r x : ℕ)
    → r ≤ length arr
    → ((pre post : List ℕ) × FoundAt arr r x pre post) ⊎ All (λ y. y ≢ x) (take r arr)
locate [] zero x le = inr tt
locate [] (suc r) x le = elim le [ ]
locate (y ∷ arr) zero x le = inr tt
locate (y ∷ arr) (suc r) x le = elim (ℕ_discrete y x) [
  | yes e ↦ inl ([], arr, record { shape = ap (λ z. z ∷ arr) e; within = omega arith; first = tt })
  | no ne ↦ elim (locate arr r x (omega arith)) [
    | inl (pre, post, f) ↦ inl (y ∷ pre, post, FoundAt-cons y ne f)
    | inr h ↦ inr (ne, h)
  ]
]

pub binary_search_found :
    {arr : List ℕ} (l r x : ℕ) {pre post : List ℕ}
    → FoundAt arr r x pre post
    → binary_search arr l r x ≡ some (pos (length pre))
unfolding binary_search
binary_search_found l r x {pre} {post} h =
    let e : 0 + length pre ≡ length pre = omega arith in
    ap (λ arr. search_from arr 0 r x) h.shape
    ∙ search_from_hit pre post 0 r x h.within h.first
    ∙ ap (λ n. some (pos n)) e

-- Whatever `l` is, and for `r` up to the length of the array, `binarySearch` returns the first index
-- below `r` at which `x` stands, or -1 where `x` is none of the first `r` elements.
pub binary_search_lem :
    (arr : List ℕ) (l r x : ℕ)
    → r ≤ length arr
    → ((pre post : List ℕ) × FoundAt arr r x pre post
        × (binary_search arr l r x ≡ some (pos (length pre))))
      ⊎ (All (λ y. y ≢ x) (take r arr) × (binary_search arr l r x ≡ some (negsuc 0)))
unfolding binary_search
binary_search_lem arr l r x le = elim (locate arr r x le) [
  | inl (pre, post, f) ↦ inl (pre, post, f, binary_search_found l r x f)
  | inr h ↦ inr (h, search_from_miss arr 0 r x le h)
]
