-- ===== src/Radix/Counts.antt =====
-- The first two loops of a round of `radix_sort`: what `bucket` holds after each.
use mathlib.Core.Path.{subst}
use spsc.Prelude.{
  ℕ, zero, suc, ◌+◌, ◌-◌, ◌≤◌, ◌<◌, ◌≡◌, refl, ap, ◌∙◌, List, [], ◌∷◌, arith, ℕ_discrete, length,
  get_or, set, replicate, length-set, length-replicate, get_or-set_self, get_or-set_ne,
}
use spsc.Radix.{count_digits, accumulate}
use spsc.Radix.Collect.{bucket, bucket_hit, bucket_miss, offset, offset-suc, offset-zero}

get_or-replicate : (n v : ℕ) → get_or (replicate {A = ℕ} n 0) v 0 ≡ 0
get_or-replicate zero v = refl
get_or-replicate (suc n) zero = refl
get_or-replicate (suc n) (suc v) = get_or-replicate n v

module _ (key : ℕ → ℕ) where
  pub length-count_digits : (xs b : List ℕ) → length (count_digits key xs b) ≡ length b
  unfolding count_digits
  length-count_digits [] b = refl
  length-count_digits (x ∷ xs) b =
      length-count_digits xs (set b (key x) (get_or b (key x) 0 + 1)) ∙ length-set b (key x) _

  get_or-count_digits :
      (xs b : List ℕ) (v : ℕ)
      → ((x : ℕ) → key x < length b)
      → get_or (count_digits key xs b) v 0 ≡ get_or b v 0 + length (bucket key v xs)
  unfolding count_digits
  get_or-count_digits [] b v h = unfold bucket in omega arith
  get_or-count_digits (x ∷ xs) b v h =
      let b' = set b (key x) (get_or b (key x) 0 + 1) in
      let rest =
        get_or-count_digits xs b' v
          (λ y. rw (length-set b (key x) (get_or b (key x) 0 + 1)) (h y)) in
      elim (ℕ_discrete (key x) v) [
        | yes e ↦ omega (
          arith,
          rest,
          ap length (bucket_hit key v x xs e),
          ap (λ k. get_or b' k 0) e,
          ap (λ k. get_or b k 0) e,
          get_or-set_self b (key x) (get_or b (key x) 0 + 1) 0 (h x),
        )
        | no ne ↦ omega (
          arith,
          rest,
          ap length (bucket_miss key v x xs ne),
          get_or-set_ne b {i = key x} {j = v} (get_or b (key x) 0 + 1) 0 ne,
        )
      ]

  -- The first `i` cells are end positions of buckets, and the others sizes.
  record Summed (xs : List ℕ) (i : ℕ) (b : List ℕ) : Type 0 where
    ends : (v : ℕ) → v < i → get_or b v 0 ≡ offset key (suc v) xs
    sizes : (v : ℕ) → i ≤ v → get_or b v 0 ≡ length (bucket key v xs)

  accumulate-Summed :
      (xs : List ℕ) (rounds i j : ℕ) (b : List ℕ)
      → i + rounds ≡ j
      → length b ≡ j
      → 0 < i
      → Summed xs i b
      → Summed xs j (accumulate rounds i b)
  unfolding accumulate
  accumulate-Summed xs zero i j b e le pos s = let e' : i ≡ j = omega arith in rw (← e') s
  accumulate-Summed xs (suc rounds) i j b e le pos s =
      let total = get_or b i 0 + get_or b (i - 1) 0 in
      accumulate-Summed xs rounds (i + 1) j (set b i total) (omega arith)
        (length-set b i total ∙ le) (omega arith)
        (record {
          ends = λ v lt. elim (ℕ_discrete i v) [
            | yes same ↦
                let last : suc (i - 1) ≡ i = omega arith in
                let before : get_or b (i - 1) 0 ≡ offset key i xs =
                  s.ends (i - 1) (omega arith) ∙ ap (λ k. offset key k xs) last in
                subst (λ w. get_or (set b i total) w 0 ≡ offset key (suc w) xs) same
                  (get_or-set_self b i total 0 (omega arith)
                    ∙ omega (arith, before, s.sizes i (omega arith), offset-suc key i xs))
            | no ne ↦ get_or-set_ne b {i = i} {j = v} total 0 ne ∙ s.ends v (omega arith)
          ];
          sizes = λ v le'.
              get_or-set_ne b {i = i} {j = v} total 0 (omega arith) ∙ s.sizes v (omega arith);
        })

  -- After the two loops cell `v` holds the index behind bucket `v`.
  pub get_or-accumulate :
      (base : ℕ) (xs : List ℕ)
      → 0 < base
      → ((x : ℕ) → key x < base)
      → (v : ℕ) → v < base
      → get_or (accumulate (base - 1) 1 (count_digits key xs (replicate base 0))) v 0
        ≡ offset key (suc v) xs
  get_or-accumulate base xs pos h v lt =
      let zeros : List ℕ = replicate base 0 in
      let zero_size : length zeros ≡ base = length-replicate base zero in
      let counts = count_digits key xs zeros in
      let size : length counts ≡ base = length-count_digits xs zeros ∙ zero_size in
      let count : (w : ℕ) → get_or counts w 0 ≡ length (bucket key w xs) = λ w.
        get_or-count_digits xs zeros w (λ x. rw zero_size (h x))
        ∙ omega (arith, get_or-replicate base w) in
      (accumulate-Summed xs (base - 1) 1 base counts (omega arith) size (omega arith) (record {
        ends = λ w lt'.
            ground (arith, count w, offset-suc key w xs, offset-zero key xs w (omega arith));
        sizes = λ w le. count w;
      })).ends
        v lt

  pub length-accumulate : (rounds i : ℕ) (b : List ℕ) → length (accumulate rounds i b) ≡ length b
  unfolding accumulate
  length-accumulate zero i b = refl
  length-accumulate (suc rounds) i b =
      length-accumulate rounds (i + 1) (set b i (get_or b i 0 + get_or b (i - 1) 0))
      ∙ length-set b i _
