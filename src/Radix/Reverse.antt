-- ===== src/Radix/Reverse.antt =====
-- `reverse` of radix_sort.c: the array turned round.
use mathlib.Core.List.{reverse-append}
use mathlib.Core.List
use spsc.Prelude.{
  ℕ, zero, suc, ◌+◌, ◌-◌, ◌*◌, ◌/◌, ◌≤◌, ◌≡◌, refl, ap, sym, ◌∙◌, arith, List, [], ◌∷◌, ◌++◌,
  append-nil, append_assoc, length, length-append, get_or, set, set-append,
}
use spsc.Radix.{reverse_from, reverse}

get_or-middle : (xs ys : List ℕ) (y i : ℕ) → i ≡ length xs → get_or (xs ++ y ∷ ys) i 0 ≡ y
get_or-middle [] ys y zero e = refl
get_or-middle [] ys y (suc i) e = absurd (omega (arith, e))
get_or-middle (x ∷ xs) ys y zero e = absurd (omega (arith, e))
get_or-middle (x ∷ xs) ys y (suc i) e = get_or-middle xs ys y i (omega (arith, e))

-- a list that is not empty has a last element
last_of : (x : ℕ) (xs : List ℕ) → (ys : List ℕ) × (y : ℕ) × (x ∷ xs ≡ ys ++ y ∷ [])
last_of x [] = ([], x, refl)
last_of x (x' ∷ xs) = let (ys, y, e) = last_of x' xs in (x ∷ ys, y, ap (◌∷◌ x) e)

-- one round: the ends of the middle part change places
reverse_from-swap :
    (rounds i : ℕ) (pre mid post : List ℕ) (x y : ℕ)
    → i ≡ length pre
    → length post ≡ length pre
    → reverse_from (suc rounds) i (pre ++ x ∷ (mid ++ y ∷ post))
      ≡ reverse_from rounds (i + 1) ((pre ++ y ∷ []) ++ (mid ++ x ∷ post))
unfolding reverse_from
reverse_from-swap rounds i pre mid post x y e e' =
    let array = pre ++ x ∷ (mid ++ y ∷ post) in
    let inner = length-append mid (y ∷ post) in
    let size = length-append pre (x ∷ (mid ++ y ∷ post)) in
    let j = length array - 1 - i in
    let regroup : (v : ℕ) → pre ++ v ∷ (mid ++ y ∷ post) ≡ (pre ++ v ∷ mid) ++ y ∷ post =
      λ v. sym (append_assoc pre (v ∷ mid) (y ∷ post)) in
    let at_j : (v : ℕ) → j ≡ length (pre ++ v ∷ mid) =
      λ v. omega (arith, e, e', inner, size, length-append pre (v ∷ mid)) in
    let first : get_or array i 0 ≡ x = get_or-middle pre (mid ++ y ∷ post) x i e in
    let last : get_or array j 0 ≡ y =
      ap (λ l. get_or l j 0) (regroup x) ∙ get_or-middle (pre ++ x ∷ mid) post y j (at_j x) in
    let swapped : set (set array i (get_or array j 0)) j (get_or array i 0)
        ≡ (pre ++ y ∷ []) ++ (mid ++ x ∷ post) =
      ap (λ v. set (set array i v) j (get_or array i 0)) last
      ∙ ap (λ v. set (set array i y) j v) first
      ∙ ap (λ l. set l j x) (set-append pre (mid ++ y ∷ post) x i y e ∙ regroup y)
      ∙ set-append (pre ++ y ∷ mid) post y j x (at_j y)
      ∙ append_assoc pre (y ∷ mid) (x ∷ post)
      ∙ sym (append_assoc pre (y ∷ []) (mid ++ x ∷ post)) in
    ap (reverse_from rounds (i + 1)) swapped

-- a list with two elements or more, by its ends
ends_of : (x x' : ℕ) (xs : List ℕ) → (ys : List ℕ) × (y : ℕ) × (x ∷ x' ∷ xs ≡ x ∷ (ys ++ y ∷ []))
ends_of x x' xs = let (ys, y, e) = last_of x' xs in (ys, y, ap (◌∷◌ x) e)

-- turning a list round puts its ends at the other ends
reverse_ends :
    (x y : ℕ) (ys : List ℕ) → List.reverse (x ∷ (ys ++ y ∷ [])) ≡ y ∷ (List.reverse ys ++ x ∷ [])
reverse_ends x y ys =
    List.reverse-append (x ∷ []) (ys ++ y ∷ [])
    ∙ ap (λ l. l ++ x ∷ []) (List.reverse-append ys (y ∷ []))

reverse_from_lem :
    (rounds i : ℕ) (pre mid post : List ℕ)
    → i ≡ length pre
    → length post ≡ length pre
    → rounds * 2 ≤ length mid
    → length mid ≤ rounds * 2 + 1
    → reverse_from rounds i (pre ++ (mid ++ post)) ≡ pre ++ (List.reverse mid ++ post)
unfolding reverse_from
reverse_from_lem zero i pre [] post e e' low high = refl
reverse_from_lem zero i pre (x ∷ []) post e e' low high = refl
reverse_from_lem zero i pre (x ∷ x' ∷ mid) post e e' low high = absurd (omega arith)
reverse_from_lem (suc rounds) i pre [] post e e' low high = absurd (omega arith)
reverse_from_lem (suc rounds) i pre (x ∷ []) post e e' low high = absurd (omega arith)
reverse_from_lem (suc rounds) i pre (x ∷ x' ∷ xs) post e e' low high =
    let (mid, y, ends) = ends_of x x' xs in
    let inner : length (x ∷ x' ∷ xs) ≡ length mid + 2 =
      ap length ends ∙ omega (arith, length-append mid (y ∷ [])) in
    let longer = length-append pre (y ∷ []) in
    ap (λ l. reverse_from (suc rounds) i (pre ++ (l ++ post))) ends
    ∙ ap (λ l. reverse_from (suc rounds) i (pre ++ x ∷ l)) (append_assoc mid (y ∷ []) post)
    ∙ reverse_from-swap rounds i pre mid post x y e e'
    ∙ reverse_from_lem rounds (i + 1) (pre ++ y ∷ []) mid (x ∷ post) (omega (arith, e, longer))
        (omega (arith, e', longer)) (omega (arith, low, inner)) (omega (arith, high, inner))
    ∙ append_assoc pre (y ∷ []) (List.reverse mid ++ x ∷ post)
    ∙ ap (λ l. pre ++ y ∷ l) (sym (append_assoc (List.reverse mid) (x ∷ []) post))
    ∙ ap (λ l. pre ++ (l ++ post)) (sym (ap List.reverse ends ∙ reverse_ends x y mid))

-- `reverse` of an array of any size leaves its elements in the opposite order.
pub reverse_lem : (array : List ℕ) → reverse array ≡ List.reverse array
unfolding reverse
reverse_lem array =
    ap (reverse_from (length array / 2) 0) (sym (append-nil array))
    ∙ reverse_from_lem (length array / 2) 0 [] array [] refl refl (omega arith) (omega arith)
    ∙ append-nil (List.reverse array)
