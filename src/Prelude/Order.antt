-- ===== src/Prelude/Order.antt =====
-- Predicates on the elements of a list, ascending lists, and rearrangements.
use Prim.Native.Nat.{ℕ, zero, suc, ◌≤◌, ◌<◌}
use mathlib.Core.Path.{◌≡◌, refl, ap, ◌∙◌, sym, subst, ap₂}
use mathlib.Core.Logic.{∥∥₁_elim}
use mathlib.Core.Logic.Or
use mathlib.Core.List.{
  List, [], ◌∷◌, ◌++◌, Mem, Perm, Permᴰ, mem-cons, mem-cons_self, mem-cons_of_mem, not-mem-nil,
}
use mathlib.Core.List.Perm
use native.Mathlib.Bridge.{le_prop}
use native.Mathlib.Nat.{le_refl, ℕ_set}
use native.Mathlib.Omega.{arith}
use spsc.Prelude.Lists.{length, get_or}

module _ {ℓ} {A : Type ℓ} where
  abbrev pub All {κ} : (A → Type κ) → List A → Type κ
  All P [] = Unit
  All P (x ∷ xs) = P x × All P xs

  pub All-append {κ} : (P : A → Type κ) (xs ys : List A) → All P xs → All P ys → All P (xs ++ ys)
  All-append P [] ys hx hy = hy
  All-append P (x ∷ xs) ys hx hy = (hx.0, All-append P xs ys hx.1 hy)

  pub All-left {κ} : (P : A → Type κ) (xs ys : List A) → All P (xs ++ ys) → All P xs
  All-left P [] ys h = tt
  All-left P (x ∷ xs) ys h = (h.0, All-left P xs ys h.1)

  pub All-right {κ} : (P : A → Type κ) (xs ys : List A) → All P (xs ++ ys) → All P ys
  All-right P [] ys h = h
  All-right P (x ∷ xs) ys h = All-right P xs ys h.1

  pub All-of {κ} : (P : A → Type κ) (xs : List A) → ((x : A) → P x) → All P xs
  All-of P [] f = tt
  All-of P (x ∷ xs) f = (f x, All-of P xs f)

  pub All-map {κ μ} :
      (P : A → Type κ) (Q : A → Type μ) (xs : List A) → ((x : A) → P x → Q x) → All P xs → All Q xs
  All-map P Q [] f h = tt
  All-map P Q (x ∷ xs) f h = (f x h.0, All-map P Q xs f h.1)

  pub All-map₂ {κ μ ν} :
      (P : A → Type κ) (Q : A → Type μ) (R : A → Type ν) (xs : List A)
      → ((x : A) → P x → Q x → R x)
      → All P xs
      → All Q xs
      → All R xs
  All-map₂ P Q R [] f h k = tt
  All-map₂ P Q R (x ∷ xs) f h k = (f x h.0 k.0, All-map₂ P Q R xs f h.1 k.1)

  pub All_get_or {κ} :
      (P : A → Type κ) (xs : List A) (i : ℕ) (d : A) → i < length xs → All P xs → P (get_or xs i d)
  All_get_or P [] i d lt h = elim lt [ ]
  All_get_or P (x ∷ xs) zero d lt h = h.0
  All_get_or P (x ∷ xs) (suc i) d lt h = All_get_or P xs i d (omega arith) h.1

  All-of_mem {κ} : (P : A → Type κ) (xs : List A) → ((a : A) → Mem a xs → P a) → All P xs
  All-of_mem P [] h = tt
  All-of_mem P (x ∷ xs) h = (h x mem-cons_self, All-of_mem P xs (λ a m. h a (mem-cons_of_mem x m)))

-- The bounds `f x ≤ n` and `n ≤ f x` are propositions, so they pass over a rearrangement.
module _ (P : ℕ → Type 0) (prop : (x : ℕ) → IsProp (P x)) where
  mem_of_All : (xs : List ℕ) → All P xs → (a : ℕ) → Mem a xs → P a
  mem_of_All [] h a m = absurd (not-mem-nil m)
  mem_of_All (x ∷ xs) h a m =
      Or.elim (prop a) (mem-cons.0 m) (λ e. subst P (sym e) h.0) (mem_of_All xs h.1 a)

  pub All-perm : {xs ys : List ℕ} → Perm xs ys → All P ys → All P xs
  All-perm {xs} {ys} p h = All-of_mem P xs (λ a m. mem_of_All ys h a ((Perm.mem_iff p).0 m))

length-permᴰ {ℓ} : {A : Type ℓ} {xs ys : List A} → Permᴰ xs ys → length xs ≡ length ys
length-permᴰ Permᴰ.nil = refl
length-permᴰ (Permᴰ.cons e p) = ap suc (length-permᴰ p)
length-permᴰ (Permᴰ.swap e e') = refl
length-permᴰ (Permᴰ.trans p q) = length-permᴰ p ∙ length-permᴰ q

-- a rearrangement has the same length
pub length-perm {ℓ} : {A : Type ℓ} (xs ys : List A) → Perm xs ys → length xs ≡ length ys
length-perm xs ys p = ∥∥₁_elim p (ℕ_set (length xs) (length ys)) length-permᴰ

abbrev pub IsSortedBy : (ℕ → ℕ) → List ℕ → Type 0
IsSortedBy f [] = Unit
IsSortedBy f (x ∷ xs) = All (λ y. f x ≤ f y) xs × IsSortedBy f xs

abbrev pub IsSorted : List ℕ → Type 0
IsSorted = IsSortedBy (λ x. x)

pub IsSortedBy-append :
    (f : ℕ → ℕ) (xs ys : List ℕ)
    → IsSortedBy f xs
    → IsSortedBy f ys
    → All (λ x. All (λ y. f x ≤ f y) ys) xs
    → IsSortedBy f (xs ++ ys)
IsSortedBy-append f [] ys hx hy h = hy
IsSortedBy-append f (x ∷ xs) ys hx hy h =
    (All-append _ xs ys hx.0 h.0, IsSortedBy-append f xs ys hx.1 hy h.1)

pub IsSortedBy-right : (f : ℕ → ℕ) (xs ys : List ℕ) → IsSortedBy f (xs ++ ys) → IsSortedBy f ys
IsSortedBy-right f [] ys h = h
IsSortedBy-right f (x ∷ xs) ys h = IsSortedBy-right f xs ys h.1

pub IsSortedBy-left : (f : ℕ → ℕ) (xs ys : List ℕ) → IsSortedBy f (xs ++ ys) → IsSortedBy f xs
IsSortedBy-left f [] ys h = tt
IsSortedBy-left f (x ∷ xs) ys h = (All-left (λ y. f x ≤ f y) xs ys h.0, IsSortedBy-left f xs ys h.1)

pub IsSortedBy-of : (f : ℕ → ℕ) (xs : List ℕ) → ((x y : ℕ) → f x ≤ f y) → IsSortedBy f xs
IsSortedBy-of f [] h = tt
IsSortedBy-of f (x ∷ xs) h = (All-of (λ y. f x ≤ f y) xs (h x), IsSortedBy-of f xs h)

-- One order for another, where the first gives the second between the elements at hand.
pub IsSortedBy-map :
    (P : ℕ → Type 0) (f g : ℕ → ℕ) (xs : List ℕ)
    → ((x y : ℕ) → P x → P y → f x ≤ f y → g x ≤ g y)
    → All P xs
    → IsSortedBy f xs
    → IsSortedBy g xs
IsSortedBy-map P f g [] h p s = tt
IsSortedBy-map P f g (x ∷ xs) h p s = (
  All-map₂ P (λ y. f x ≤ f y) (λ y. g x ≤ g y) xs (λ y py le. h x y p.0 py le) p.1 s.0,
  IsSortedBy-map P f g xs h p.1 s.1,
)

-- The head of an ascending list is a least element of every rearrangement.
pub head-least :
    (x : ℕ) (xs : List ℕ) {ys : List ℕ} → IsSorted (x ∷ xs) → Perm ys (x ∷ xs) → All (λ y. x ≤ y) ys
head-least x xs h p = All-perm (λ y. x ≤ y) (λ y. le_prop) p (le_refl x, h.0)

-- Two ascending rearrangements of one another are one list.
pub IsSorted-eq_of_perm : (xs ys : List ℕ) → IsSorted xs → IsSorted ys → Perm xs ys → xs ≡ ys
IsSorted-eq_of_perm [] ys hx hy p = Perm.nil-eq p
IsSorted-eq_of_perm (x ∷ xs) [] hx hy p = Perm.eq-nil p
IsSorted-eq_of_perm (x ∷ xs) (y ∷ ys) hx hy p =
    let below_x = head-least x xs hx (Perm.symm p) in
    let below_y = head-least y ys hy p in
    let heads : x ≡ y = omega arith in
    let tails = Perm.cons_inv (Perm.trans p (Perm.symm (Perm.cons' heads Perm.rfl))) in
    ap₂ ◌∷◌ heads (IsSorted-eq_of_perm xs ys hx.1 hy.1 tails)
