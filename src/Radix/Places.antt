-- ===== src/Radix/Places.antt =====
-- The third loop of a round of `radix_sort`, from the last element down: it puts each element at
-- the last free place of its bucket.
use mathlib.Core.Path.{subst, ap₂}
use spsc.Prelude.{
  ℕ, zero, suc, ◌+◌, ◌-◌, ◌≤◌, ◌<◌, ◌≡◌, ◌≢◌, refl, ap, sym, ◌∙◌, List, ◌∷◌, arith, ℕ_discrete,
  dec_lt, length, get_elem?, get_or, set, take, drop, replicate, length-set, get_or-set_self,
  get_or-set_ne, get_elem?-set_self, get_elem?-set_ne, drop-eq-cons, take-append-drop, take_all,
  take_add, take_of_get_elem?, get_elem?-drop, length-replicate, ◌++◌, length-append, length-perm,
}
use spsc.Radix.{fill, accumulate, count_digits, place_all}
use spsc.Radix.Collect.{
  bucket, bucket-nil, bucket_hit, bucket_miss, bucket-append, offset, offset-suc, offset_mono,
  collect, collect-perm,
}
use spsc.Radix.Counts.{get_or-accumulate, length-accumulate, length-count_digits}

module _ (key : ℕ → ℕ) (base : ℕ) (in_base : (x : ℕ) → key x < base) (array : List ℕ) where
  -- elements of bucket `v` among the first `i`, and from index `i` on
  abbrev ahead : ℕ → ℕ → ℕ
  ahead i v = length (bucket key v (take i array))

  abbrev behind : ℕ → ℕ → List ℕ
  behind i v = bucket key v (drop i array)

  ahead-behind : (i v : ℕ) → ahead i v + length (behind i v) ≡ length (bucket key v array)
  ahead-behind i v = omega (
    arith,
    length-append (bucket key v (take i array)) (bucket key v (drop i array)),
    ap length (bucket-append key v (take i array) (drop i array)),
    ap (λ l. length (bucket key v l)) (take-append-drop i array),
  )

  module _ (i : ℕ) (lt : i < length array) where
    abbrev now : ℕ
    now = get_or array i 0

    split : bucket key (key now) (drop i array) ≡ now ∷ behind (suc i) (key now)
    split =
        ap (bucket key (key now)) (drop-eq-cons array i 0 lt)
        ∙ bucket_hit key (key now) now (drop (suc i) array) refl

    split_ne : (v : ℕ) → key now ≢ v → behind i v ≡ behind (suc i) v
    split_ne v ne =
        ap (bucket key v) (drop-eq-cons array i 0 lt)
        ∙ bucket_miss key v now (drop (suc i) array) ne

    ahead-suc : ahead (suc i) (key now) ≡ suc (ahead i (key now))
    ahead-suc =
        omega (arith, ahead-behind i (key now), ahead-behind (suc i) (key now), ap length split)

    ahead-suc_ne : (v : ℕ) → key now ≢ v → ahead (suc i) v ≡ ahead i v
    ahead-suc_ne v ne =
        omega (arith, ahead-behind i v, ahead-behind (suc i) v, ap length (split_ne v ne))

  length-offset : offset key base array ≡ length array
  length-offset = length-perm (collect key base array) array (collect-perm key base array in_base)

  -- With the elements from index `i` on in place: `bucket` points behind the free part of each
  -- bucket, and the rest of the bucket holds its elements in order.
  record Placed (i : ℕ) (b semi : List ℕ) : Type 0 where
    cells : length b ≡ base
    room : length semi ≡ length array
    next : (v : ℕ) → v < base → get_or b v 0 ≡ offset key v array + ahead i v
    held :
        (v k : ℕ)
        → v < base
        → k < length (behind i v)
        → get_elem? semi (offset key v array + ahead i v + k) ≡ get_elem? (behind i v) k

  -- the place of the element at index `i`
  abbrev place : ℕ → ℕ
  place i = offset key (key (get_or array i 0)) array + ahead i (key (get_or array i 0))

  place-lt : (i : ℕ) → i < length array → place i < length array
  place-lt i lt =
      let v = key (get_or array i 0) in
      omega (
        arith,
        length-offset,
        offset_mono key v base array (in_base (get_or array i 0)),
        ahead-behind (suc i) v,
        ahead-suc i lt,
      )

  -- it lies outside the other buckets
  place-ne :
      (i v k : ℕ)
      → i < length array
      → key (get_or array i 0) ≢ v
      → k < length (behind i v)
      → place i ≢ offset key v array + ahead i v + k
  place-ne i v k lt ne hk e =
      let w = key (get_or array i 0) in
      elim (dec_lt v w) [
        | yes below ↦ omega (arith, offset_mono key v w array below, ahead-behind i v)
        | no above ↦
            omega (
              arith,
              offset_mono key w v array (omega arith),
              ahead-behind (suc i) w,
              ahead-suc i lt,
            )
      ]

  module _ (i : ℕ) (lt : i < length array) (b semi : List ℕ) (p : Placed (suc i) b semi) where
    place_lem : get_or b (key (get_or array i 0)) 0 - 1 ≡ place i
    place_lem =
        omega (arith, p.next (key (get_or array i 0)) (in_base (get_or array i 0)), ahead-suc i lt)

    held_same :
        (k : ℕ)
        → k < length (behind i (key (now i lt)))
        → get_elem? (set semi (place i) (now i lt)) (place i + k)
          ≡ get_elem? (behind i (key (now i lt))) k
    held_same zero hk =
        let w = key (now i lt) in
        let start : place i + 0 ≡ place i = omega arith in
        ap (get_elem? (set semi (place i) (now i lt))) start
        ∙ get_elem?-set_self semi (place i) (now i lt) (omega (arith, p.room, place-lt i lt))
        ∙ sym (ap (λ l. get_elem? l 0) (split i lt))
    held_same (suc k) hk =
        let w = key (now i lt) in
        let index : place i + suc k ≡ offset key w array + ahead (suc i) w + k =
          omega (arith, ahead-suc i lt) in
        get_elem?-set_ne semi {i = place i} {j = place i + suc k} (now i lt) (omega arith)
        ∙ ap (get_elem? semi) index
        ∙ p.held w k (in_base (now i lt)) (omega (arith, ap length (split i lt)))
        ∙ sym (ap (λ l. get_elem? l (suc k)) (split i lt))

    Placed-step : Placed i (set b (key (now i lt)) (place i)) (set semi (place i) (now i lt))
    Placed-step = record {
      cells = length-set b _ _ ∙ p.cells;
      room = length-set semi _ _ ∙ p.room;
      next = λ v hv. elim (ℕ_discrete (key (now i lt)) v) [
        | yes same ↦
            subst
              (λ w. get_or (set b (key (now i lt)) (place i)) w 0 ≡ offset key w array + ahead i w)
              same
              (get_or-set_self b (key (now i lt)) (place i) 0
                (omega (arith, p.cells, in_base (now i lt))))
        | no ne ↦
            get_or-set_ne b (place i) 0 ne
            ∙ p.next v hv
            ∙ ap (λ n. offset key v array + n) (ahead-suc_ne i lt v ne)
      ];
      held = λ v k hv hk. elim (ℕ_discrete (key (now i lt)) v) [
        | yes same ↦
            subst
              (λ w.
                k < length (behind i w)
                → get_elem? (set semi (place i) (now i lt)) (offset key w array + ahead i w + k)
                  ≡ get_elem? (behind i w) k)
              same (held_same k) hk
        | no ne ↦
            get_elem?-set_ne semi (now i lt) (place-ne i v k lt ne hk)
            ∙ ap (λ n. get_elem? semi (offset key v array + n + k)) (sym (ahead-suc_ne i lt v ne))
            ∙ p.held v k hv (omega (arith, ap length (split_ne i lt v ne)))
            ∙ sym (ap (λ l. get_elem? l k) (split_ne i lt v ne))
      ];
    }

  fill-Placed :
      (i : ℕ) (b semi : List ℕ)
      → i ≤ length array
      → Placed i b semi
      → (b' : List ℕ) × Placed 0 b' (fill key array i b semi)
  unfolding fill
  fill-Placed zero b semi le p = (b, p)
  fill-Placed (suc i) b semi le p =
      rw (place_lem i le b semi p) (fill-Placed i _ _ (omega arith) (Placed-step i le b semi p))

  -- With all elements placed the array is the buckets in turn.
  take-Placed :
      (b semi : List ℕ) (n : ℕ)
      → n ≤ base
      → Placed 0 b semi
      → take (offset key n array) semi ≡ collect key n array
  unfolding collect
  take-Placed b semi zero le p = refl
  take-Placed b semi (suc n) le p =
      let start = offset key n array in
      let size = length (bucket key n array) in
      let agree : (k : ℕ) → k < size → get_elem? (drop start semi) k ≡ get_elem? (behind 0 n) k =
        λ k hk.
          get_elem?-drop start semi k
          ∙ ap (λ m. get_elem? semi (m + k)) (omega (arith, ap length (bucket-nil key n)))
          ∙ p.held n k le hk in
      ap (λ m. take m semi) (offset-suc key n array)
      ∙ take_add start size semi
      ∙ ap₂ ◌++◌ (take-Placed b semi n (omega arith) p)
          (take_of_get_elem? (drop start semi) (bucket key n array) agree)

  -- One round, on a scratch array of any contents: the buckets of the array, in turn.
  pub place_all_lem :
      (semi : List ℕ)
      → length semi ≡ length array
      → place_all base key array semi ≡ collect key base array
  unfolding place_all
  place_all_lem semi e =
      let all = length array in
      let whole = take_all all array (omega arith) in
      let zeros : List ℕ = replicate base 0 in
      let counts = count_digits key array zeros in
      let size : (v : ℕ) → ahead all v ≡ length (bucket key v array) =
        λ v. ap (λ l. length (bucket key v l)) whole in
      let (b, p) = fill-Placed all (accumulate (base - 1) 1 counts) semi (omega arith) (record {
        cells =
            length-accumulate key (base - 1) 1 counts
            ∙ length-count_digits key array zeros
            ∙ length-replicate base zero;
        room = e;
        next = λ v hv.
            get_or-accumulate key base array (omega (arith, in_base 0)) in_base v hv
            ∙ omega (arith, offset-suc key v array, size v);
        held = λ v k hv hk. absurd (omega (arith, ahead-behind all v, size v));
      }) in
      sym (take_all (offset key base array) _ (omega (arith, p.room, length-offset)))
      ∙ take-Placed b _ base (omega arith) p
