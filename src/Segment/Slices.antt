-- ===== src/Segment/Slices.antt =====
-- What is stored in the segment is read back from it.
use spsc.Prelude.{
  ℕ, zero, suc, ◌+◌, ◌≤◌, ◌≡◌, refl, ap, sym, ◌∙◌, arith, List, [], ◌∷◌, ◌++◌, leb, true, length,
  take, drop, length-append, length-take, length-drop, returned, append_assoc,
}
use spsc.Segment.{store, load}

-- the segment with `bytes` at `at`
abbrev pub written : ℕ → List ℕ → List ℕ → List ℕ
written at bytes segment = take at segment ++ (bytes ++ drop (at + length bytes) segment)

pub length-written :
    (at : ℕ) (bytes segment : List ℕ)
    → at + length bytes ≤ length segment
    → length (written at bytes segment) ≡ length segment
length-written at bytes segment h = omega (
  arith,
  length-append (take at segment) (bytes ++ drop (at + length bytes) segment),
  length-append bytes (drop (at + length bytes) segment),
  length-take at segment,
  length-drop (at + length bytes) segment,
)

pub store_lem :
    (at : ℕ) (bytes segment : List ℕ)
    → at + length bytes ≤ length segment
    → store at bytes segment ≡ returned (written at bytes segment)
unfolding store
store_lem at bytes segment h =
    let e : leb (at + length bytes) (length segment) ≡ true = ground arith in rw e

drop-length_append : (xs ys : List ℕ) (n : ℕ) → length xs ≡ n → drop n (xs ++ ys) ≡ ys
drop-length_append [] ys zero e = refl
drop-length_append [] ys (suc n) e = absurd (omega (arith, e))
drop-length_append (x ∷ xs) ys zero e = absurd (omega (arith, e))
drop-length_append (x ∷ xs) ys (suc n) e = drop-length_append xs ys n (omega (arith, e))

pub take-length_append : (xs ys : List ℕ) (n : ℕ) → length xs ≡ n → take n (xs ++ ys) ≡ xs
take-length_append [] ys zero e = refl
take-length_append [] ys (suc n) e = absurd (omega (arith, e))
take-length_append (x ∷ xs) ys zero e = absurd (omega (arith, e))
take-length_append (x ∷ xs) ys (suc n) e =
    ap (◌∷◌ x) (take-length_append xs ys n (omega (arith, e)))

take-written :
    (at : ℕ) (bytes segment : List ℕ)
    → at + length bytes ≤ length segment
    → take (at + length bytes) (written at bytes segment) ≡ take at segment ++ bytes
take-written at bytes segment h =
    let end = drop (at + length bytes) segment in
    ap (take (at + length bytes)) (sym (append_assoc (take at segment) bytes end))
    ∙ take-length_append (take at segment ++ bytes) end (at + length bytes)
        (omega (arith, length-append (take at segment) bytes, length-take at segment, h))

-- a string and the zero behind it, read back without the zero
pub load-written :
    (at : ℕ) (bytes segment : List ℕ)
    → at + length bytes + 1 ≤ length segment
    → load at (length bytes) (written (at + length bytes) (0 ∷ []) (written at bytes segment))
      ≡ returned bytes
unfolding load
load-written at bytes segment h =
    let n = at + length bytes in
    let first = written at bytes segment in
    let size : length first ≡ length segment = length-written at bytes segment (omega (arith, h)) in
    let size' : length (written n (0 ∷ []) first) ≡ length segment =
      length-written n (0 ∷ []) first (omega (arith, h, size)) ∙ size in
    let fits : leb n (length (written n (0 ∷ []) first)) ≡ true =
      (let le : n ≤ length (written n (0 ∷ []) first) = omega (arith, size', h) in ground arith) in
    let before : take n first ≡ take at segment ++ bytes =
      take-written at bytes segment (omega (arith, h)) in
    rw fits (
      ap (λ l. returned (take (length bytes) (drop at (l ++ 0 ∷ drop (n + 1) first)))) before
      ∙ ap (λ l. returned (take (length bytes) (drop at l)))
          (append_assoc (take at segment) bytes (0 ∷ drop (n + 1) first))
      ∙ ap (λ l. returned (take (length bytes) l))
          (drop-length_append (take at segment) (bytes ++ 0 ∷ drop (n + 1) first) at
            (omega (arith, length-take at segment, h)))
      ∙ ap returned (take-length_append bytes (0 ∷ drop (n + 1) first) (length bytes) refl))

pub load-overwritten :
    (at : ℕ) (bytes segment : List ℕ)
    → at + length bytes ≤ length segment
    → load at (length bytes) (written at bytes segment) ≡ returned bytes
unfolding load
load-overwritten at bytes segment h =
    let end = drop (at + length bytes) segment in
    let size : length (written at bytes segment) ≡ length segment =
      length-written at bytes segment h in
    let fits : leb (at + length bytes) (length (written at bytes segment)) ≡ true =
      (let le : at + length bytes ≤ length (written at bytes segment) = omega (arith, size, h) in
        ground arith) in
    rw fits (
      ap (λ l. returned (take (length bytes) l))
        (drop-length_append (take at segment) (bytes ++ end) at
          (omega (arith, length-take at segment, h)))
      ∙ ap returned (take-length_append bytes end (length bytes) refl))

-- what can be read
pub load_lem :
    (at len : ℕ) (segment : List ℕ)
    → at + len ≤ length segment
    → (bytes : List ℕ) × (load at len segment ≡ returned bytes) × (length bytes ≡ len)
unfolding load
load_lem at len segment h =
    let fits : leb (at + len) (length segment) ≡ true = ground arith in
    (
      take len (drop at segment),
      rw fits refl,
      omega (arith, length-take len (drop at segment), length-drop at segment, h),
    )
