-- ===== src/Hash/Zeros.antt =====
-- What `toBin` of util.c writes.
use Prim.Native.Nat.{bit_and}
use spsc.Prelude.{
  ==_iff, ℕ, zero, suc, ◌+◌, ◌*◌, ◌/◌, ◌≤◌, ◌<◌, ◌≡◌, refl, ap, sym, ◌∙◌, arith, Bool, true, List,
  [], ◌∷◌, ◌++◌, append_assoc, ◌&&◌, ◌==◌, ltb, length, length-append, get_elem?, set-append, drop,
  replicate, returned,
}
use spsc.Hash.{nibbles, write}
use spsc.Hash.Bin.{joined, read, to_bin_from, to_bin}

nibbles-lt : (ch : ℕ) → nibbles ch < 16
unfolding nibbles
nibbles-lt ch = ground arith

-- whether a test holds at all the numbers below a bound
below : ℕ → (ℕ → Bool) → Bool
below zero test = true
below (suc n) test = test n && below n test

at_each : (n : ℕ) (test : ℕ → Bool) (x : ℕ) → below n test ≡ true → x < n → test x ≡ true
unfolding below
at_each zero test x h lt = absurd (omega arith)
at_each (suc n) test x h lt = ground (arith, at_each n test x)

-- "and" in place of "or": no two nibbles give anything but zero.
nibbles_lost :
    below 16 (λ a. below 16 (λ b. bit_and (bit_and (a * 16) 0xf0) (bit_and b 0x0f) == 0)) ≡ true
unfolding below
nibbles_lost = refl

joined-zero : (hi lo : ℕ) → joined hi lo ≡ 0
unfolding joined
joined-zero hi lo =
    let row =
      at_each 16 (λ a. below 16 (λ b. bit_and (bit_and (a * 16) 0xf0) (bit_and b 0x0f) == 0))
        (nibbles hi) nibbles_lost (nibbles-lt hi) in
    (==_iff _ 0).0 (
      at_each 16 (λ b. bit_and (bit_and (nibbles hi * 16) 0xf0) (bit_and b 0x0f) == 0) (nibbles lo)
        row (nibbles-lt lo))

read_in : (r : List ℕ) (i : ℕ) → i < length r → (c : ℕ) × (read (get_elem? r i) ≡ returned c)
read_in [] i h = absurd (omega arith)
read_in (x ∷ r) zero h = (x, refl)
read_in (x ∷ r) (suc i) h = read_in r i (omega arith)

write-zero :
    (done rest : List ℕ) (x j v : ℕ)
    → j ≡ length done
    → v ≡ 0
    → write (done ++ x ∷ rest) j v ≡ returned ((done ++ 0 ∷ []) ++ rest)
unfolding write
write-zero done rest x j v e zero_v =
    let within : ltb j (length (done ++ x ∷ rest)) ≡ true =
      (let lt : j < length (done ++ x ∷ rest) = omega (arith, e, length-append done (x ∷ rest)) in
        ground arith) in
    rw (within, zero_v)
      (ap returned (set-append done rest x j 0 e ∙ sym (append_assoc done (0 ∷ []) rest)))

to_bin_from_lem :
    (rounds i j : ℕ) (r done rest : List ℕ) (blen : ℕ)
    → j ≡ length done
    → rounds ≤ length rest
    → j + rounds ≤ blen
    → i + 2 * rounds ≤ length r
    → to_bin_from rounds i j r (done ++ rest) blen
      ≡ returned (done ++ (replicate rounds 0 ++ drop rounds rest))
unfolding to_bin_from
to_bin_from_lem zero i j r done rest blen e h h' h'' = refl
to_bin_from_lem (suc rounds) i j r done [] blen e h h' h'' = absurd (omega (arith, h))
to_bin_from_lem (suc rounds) i j r done (x ∷ rest) blen e h h' h'' =
    let within : ltb j blen ≡ true = ground arith in
    let (hi, e₁) = read_in r i (omega (arith, h'')) in
    let (lo, e₂) = read_in r (i + 1) (omega (arith, h'')) in
    let written : write (done ++ x ∷ rest) j (joined hi lo) ≡ returned ((done ++ 0 ∷ []) ++ rest) =
      write-zero done rest x j (joined hi lo) e (joined-zero hi lo) in
    rw (within, e₁, e₂, written)
      (to_bin_from_lem rounds (i + 2) (j + 1) r (done ++ 0 ∷ []) rest blen
          (omega (arith, e, length-append done (0 ∷ []))) (omega (arith, h)) (omega (arith, h'))
          (omega (arith, h''))
        ∙ ap returned (append_assoc done (0 ∷ []) (replicate rounds 0 ++ drop rounds rest)))

-- From `2 * k` characters, into an array of `k` places or more that is asserted to have as many:
-- whatever the characters are, it writes `k` zeros.
pub to_bin_zeros :
    (k : ℕ) (r b : List ℕ) (blen : ℕ)
    → 2 * k ≤ length r
    → k ≤ length b
    → k ≤ blen
    → to_bin r (2 * k) b blen ≡ returned (replicate k 0 ++ drop k b)
unfolding to_bin
to_bin_zeros k r b blen h h' h'' =
    let rounds : (2 * k + 1) / 2 ≡ k = omega arith in
    ap (λ n. to_bin_from n 0 0 r b blen) rounds
    ∙ to_bin_from_lem k 0 0 r [] b blen refl h' (omega (arith, h'')) (omega (arith, h))
