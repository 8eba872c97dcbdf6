-- ===== src/Radix/Collect.antt =====
-- One round of a bucket sort, described without an array: the elements of each bucket in turn.
use mathlib.Core.List.{Perm, perm_middle}
use mathlib.Core.List.Perm
use spsc.Prelude.{
  ◌≢◌, true, ℕ, zero, suc, ◌+◌, ◌≤◌, ◌<◌, ◌≡◌, refl, false, inl, inr, List, [], ◌∷◌, ◌++◌, arith,
  ◌==◌, Bool-cases, if◌then◌else◌, length, length-append, All, All-append, All-map, All-of, dec_lt,
  IsSortedBy, IsSortedBy-append,
}

module _ (key : ℕ → ℕ) where
  -- the elements in bucket `v`, in their order
  unfoldable pub bucket : ℕ → List ℕ → List ℕ
  bucket v [] = []
  bucket v (x ∷ xs) = let rest = bucket v xs in if key x == v then x ∷ rest else rest

  pub bucket_hit : (v : ℕ) (x : ℕ) (xs : List ℕ) → key x ≡ v → bucket v (x ∷ xs) ≡ x ∷ bucket v xs
  unfolding bucket
  bucket_hit v x xs e = let here : (key x == v) ≡ true = ground arith in rw here

  pub bucket_miss : (v : ℕ) (x : ℕ) (xs : List ℕ) → key x ≢ v → bucket v (x ∷ xs) ≡ bucket v xs
  unfolding bucket
  bucket_miss v x xs ne = let other : (key x == v) ≡ false = ground arith in rw other

  pub bucket-nil : (v : ℕ) → bucket v [] ≡ []
  unfolding bucket
  bucket-nil v = refl

  pub bucket-append : (v : ℕ) (xs ys : List ℕ) → bucket v (xs ++ ys) ≡ bucket v xs ++ bucket v ys
  unfolding bucket
  bucket-append v [] ys = refl
  bucket-append v (x ∷ xs) ys = ground (arith, bucket-append v xs ys)

  -- the first `n` buckets, one after the other
  unfoldable pub collect : ℕ → List ℕ → List ℕ
  collect zero xs = []
  collect (suc n) xs = collect n xs ++ bucket n xs

  -- where bucket `v` begins
  abbrev pub offset : ℕ → List ℕ → ℕ
  offset v xs = length (collect v xs)

  pub offset-suc : (v : ℕ) (xs : List ℕ) → offset (suc v) xs ≡ offset v xs + length (bucket v xs)
  unfolding collect
  offset-suc v xs = length-append (collect v xs) (bucket v xs)

  pub offset-zero : (xs : List ℕ) (v : ℕ) → v ≡ 0 → offset v xs ≡ 0
  unfolding collect
  offset-zero xs v e = rw e

  pub offset_mono :
      (v w : ℕ) (xs : List ℕ) → v < w → offset v xs + length (bucket v xs) ≤ offset w xs
  offset_mono v zero xs h = elim h [ ]
  offset_mono v (suc w) xs h = elim (dec_lt v w) [
    | yes p ↦ omega (arith, offset-suc w xs, offset_mono v w xs p)
    | no p ↦ let e : v ≡ w = omega arith in rw e (omega (arith, offset-suc w xs))
  ]

  collect-nil : (n : ℕ) → collect n [] ≡ []
  unfolding collect bucket
  collect-nil zero = refl
  collect-nil (suc n) = rw (collect-nil n)

  -- an element whose bucket is not collected changes nothing
  collect_skip : (n : ℕ) (x : ℕ) (xs : List ℕ) → n ≤ key x → collect n (x ∷ xs) ≡ collect n xs
  unfolding collect bucket
  collect_skip zero x xs h = refl
  collect_skip (suc n) x xs h =
      let other : (key x == n) ≡ false = ground arith in
      rw (collect_skip n x xs (omega arith), other)

  collect-cons :
      (n : ℕ) (x : ℕ) (xs : List ℕ) → key x < n → Perm (collect n (x ∷ xs)) (x ∷ collect n xs)
  unfolding collect bucket
  collect-cons zero x xs h = elim h [ ]
  collect-cons (suc n) x xs h = elim (Bool-cases (key x == n)) [
    | inl here ↦
        rw (here, collect_skip n x xs (ground arith)) (perm_middle (collect n xs) (bucket n xs))
    | inr other ↦ rw other (Perm.append_right (bucket n xs) (collect-cons n x xs (ground arith)))
  ]

  -- The buckets together hold the elements, if there is a bucket for each.
  pub collect-perm : (n : ℕ) (xs : List ℕ) → ((x : ℕ) → key x < n) → Perm (collect n xs) xs
  collect-perm n [] h = rw (collect-nil n) Perm.nil
  collect-perm n (x ∷ xs) h =
      Perm.trans (collect-cons n x xs (h x)) (Perm.cons x (collect-perm n xs h))

  -- the elements of one bucket have its key, and what held of the elements before
  bucket-All :
      (P : ℕ → Type 0) (v : ℕ) (xs : List ℕ) → All P xs → All (λ x. P x × (key x ≡ v)) (bucket v xs)
  unfolding bucket
  bucket-All P v [] h = tt
  bucket-All P v (x ∷ xs) h = elim (Bool-cases (key x == v)) [
    | inl here ↦ rw here ((h.0, ground arith), bucket-All P v xs h.1)
    | inr other ↦ rw other (bucket-All P v xs h.1)
  ]

  pub collect-All : (P : ℕ → Type 0) (n : ℕ) (xs : List ℕ) → All P xs → All P (collect n xs)
  unfolding collect
  collect-All P zero xs h = tt
  collect-All P (suc n) xs h =
      All-append P (collect n xs) (bucket n xs) (collect-All P n xs h)
        (All-map _ P (bucket n xs) (λ x p. p.0) (bucket-All P n xs h))

  collect_below : (n : ℕ) (xs : List ℕ) → All (λ x. key x < n) (collect n xs)
  unfolding collect
  collect_below zero xs = tt
  collect_below (suc n) xs =
      All-append _ (collect n xs) (bucket n xs)
        (All-map (λ x. key x < n) _ (collect n xs) (λ x p. omega arith) (collect_below n xs))
        (All-map _ _ (bucket n xs) (λ x p. omega (arith, p.1))
          (bucket-All (λ _. Unit {0}) n xs (All-of (λ _. Unit {0}) xs (λ _. tt))))

  -- Where `g` is ordered by the key first and by `f` second, collecting a list in the order of `f`
  -- puts it in the order of `g`.
  module _ (f g : ℕ → ℕ) (by_key : (x y : ℕ) → key x < key y → g x ≤ g y)
      (by_rest : (x y : ℕ) → key x ≡ key y → f x ≤ f y → g x ≤ g y) where
    bucket-IsSortedBy : (v : ℕ) (xs : List ℕ) → IsSortedBy f xs → IsSortedBy g (bucket v xs)
    unfolding bucket
    bucket-IsSortedBy v [] h = tt
    bucket-IsSortedBy v (x ∷ xs) h = elim (Bool-cases (key x == v)) [
      | inl here ↦ rw here (
        All-map _ _ (bucket v xs) (λ y p. by_rest x y (ground (arith, p.1)) p.0)
            (bucket-All (λ y. f x ≤ f y) v xs h.0),
        bucket-IsSortedBy v xs h.1,
      )
      | inr other ↦ rw other (bucket-IsSortedBy v xs h.1)
    ]

    pub collect-IsSortedBy : (n : ℕ) (xs : List ℕ) → IsSortedBy f xs → IsSortedBy g (collect n xs)
    unfolding collect
    collect-IsSortedBy zero xs h = tt
    collect-IsSortedBy (suc n) xs h =
        let in_bucket = bucket-All (λ _. Unit {0}) n xs (All-of (λ _. Unit {0}) xs (λ _. tt)) in
        IsSortedBy-append g (collect n xs) (bucket n xs) (collect-IsSortedBy n xs h)
          (bucket-IsSortedBy n xs h)
          (All-map (λ x. key x < n) _ (collect n xs)
            (λ x below.
              All-map _ _ (bucket n xs) (λ y p. by_key x y (omega (arith, p.1))) in_bucket)
            (collect_below n xs))
