-- ===== src/Frame/Strstr.antt =====
-- What `strstr` finds, and what it goes on to find in a longer string.
use spsc.Prelude.{
  ℕ, ◌+◌, ◌≤◌, ◌≡◌, ◌≢◌, refl, ap, ◌∙◌, arith, true, false, none, some, List, [], ◌∷◌, ◌++◌, ◌==◌,
  All, length, Bool-cases, Option-cases, inl, inr,
}
use spsc.Frame.{starts_with, strstr}

starts_with-append : (m s rest : List ℕ) → starts_with m s ≡ true → starts_with m (s ++ rest) ≡ true
unfolding starts_with
starts_with-append [] s rest h = refl
starts_with-append (c ∷ m) [] rest h = cc
starts_with-append (c ∷ m) (d ∷ s) rest h = ground (arith, starts_with-append m s rest)

starts_with_within : (m s : List ℕ) → starts_with m s ≡ true → length m ≤ length s
unfolding starts_with
starts_with_within [] s h = omega arith
starts_with_within (c ∷ m) [] h = cc
starts_with_within (c ∷ m) (d ∷ s) h = ground (arith, starts_with_within m s)

starts_with_long :
    (m s rest : List ℕ) → length m ≤ length s → starts_with m (s ++ rest) ≡ starts_with m s
unfolding starts_with
starts_with_long [] s rest h = refl
starts_with_long (c ∷ m) [] rest h = absurd (omega (arith, h))
starts_with_long (c ∷ m) (d ∷ s) rest h = rw (starts_with_long m s rest (omega (arith, h))) refl

-- a marker that is found lies in the string
pub strstr_within : (m s : List ℕ) {i : ℕ} → strstr m s ≡ some i → i + length m ≤ length s
unfolding strstr
strstr_within m [] h = ground (arith, starts_with_within m [])
strstr_within m (c ∷ s) h = elim (Option-cases (strstr m s)) [
  | inl e ↦ ground (arith, starts_with_within m (c ∷ s))
  | inr (j, e) ↦ ground (arith, starts_with_within m (c ∷ s), strstr_within m s e)
]

-- a marker that is found stays the first in a longer string
pub strstr-append :
    (m s rest : List ℕ) {i : ℕ} → strstr m s ≡ some i → strstr m (s ++ rest) ≡ some i
unfolding strstr
strstr-append m [] [] h = h
strstr-append m [] (r ∷ rest) h = ground (arith, starts_with-append m [] (r ∷ rest))
strstr-append m (c ∷ s) rest {i} h = elim (Bool-cases (starts_with m (c ∷ s))) [
  | inl e ↦ ground (arith, starts_with-append m (c ∷ s) rest)
  | inr e ↦ elim (Option-cases (strstr m s)) [
    | inl none_left ↦ absurd (ground arith)
    | inr (j, found) ↦ ground (
      arith,
      strstr-append m s rest found,
      starts_with_long m (c ∷ s) rest (omega (arith, strstr_within m s found)),
    )
  ]
]

-- a marker does not begin where its first character does not stand
pub strstr_skip :
    (c : ℕ) (m xs ys : List ℕ)
    → All (λ x. x ≢ c) xs
    → {i : ℕ} → strstr (c ∷ m) ys ≡ some i
    → strstr (c ∷ m) (xs ++ ys) ≡ some (length xs + i)
unfolding strstr starts_with
strstr_skip c m [] ys h e = e ∙ ap some (omega arith)
strstr_skip c m (x ∷ xs) ys h {i} e =
    let other : (c == x) ≡ false = (let ne : x ≢ c = h.0 in ground arith) in
    rw (other, strstr_skip c m xs ys (h.1) e) (ap some (omega arith))

pub strstr-none : (c : ℕ) (m xs : List ℕ) → All (λ x. x ≢ c) xs → strstr (c ∷ m) xs ≡ none
unfolding strstr starts_with
strstr-none c m [] h = refl
strstr-none c m (x ∷ xs) h =
    let other : (c == x) ≡ false = (let ne : x ≢ c = h.0 in ground arith) in
    rw (other, strstr-none c m xs (h.1)) refl
