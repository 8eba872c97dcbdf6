-- ===== src/Prelude/Strings.antt =====
-- C strings: the list of the characters before the zero that ends one.
use Prim.Native.Nat.{ℕ}
use Prim.Native.Char.{code}
use Prim.Native.String.{String}
use mathlib.Core.Path.{◌≡◌, refl, ap, ap₂}
use mathlib.Core.Logic.{◌↔◌}
use mathlib.Core.Bool.{Bool, true, false, ◌&&◌}
use mathlib.Core.List.{List, [], ◌∷◌}
use native.Mathlib.Omega.{arith}
use mathlib.Core.Logic.{◌≢◌}
use spsc.Prelude.Tests.{◌==◌, ==_iff, if◌then◌else◌}
use spsc.Prelude.Lists.{get_or, length, drop}
use spsc.Prelude.Order.{All}

-- the characters of a literal
abbrev pub codes : String → List ℕ
codes String.[] = []
codes (String.◌∷◌ c s) = code c ∷ codes s

-- the characters before the first zero
unfoldable pub c_string : List ℕ → List ℕ
c_string [] = []
c_string (c ∷ cs) = if c == 0 then [] else c ∷ c_string cs

-- `0 == strcmp(s, t)`
unfoldable pub strcmp_equal : List ℕ → List ℕ → Bool
strcmp_equal [] [] = true
strcmp_equal [] (d ∷ ds) = false
strcmp_equal (c ∷ cs) [] = false
strcmp_equal (c ∷ cs) (d ∷ ds) = (c == d) && strcmp_equal cs ds

and_iff : (a b : Bool) → (a && b) ≡ true → (a ≡ true) × (b ≡ true)
and_iff true b h = (refl, h)
and_iff false b h = absurd (ground arith)

pub strcmp_equal_iff : (s t : List ℕ) → (strcmp_equal s t ≡ true) ↔ (s ≡ t)
unfolding strcmp_equal
strcmp_equal_iff [] [] = ((λ _. refl), (λ _. refl))
strcmp_equal_iff [] (d ∷ ds) =
    ((λ h. absurd (ground arith)), (λ h. absurd (omega (arith, ap length h))))
strcmp_equal_iff (c ∷ cs) [] =
    ((λ h. absurd (ground arith)), (λ h. absurd (omega (arith, ap length h))))
strcmp_equal_iff (c ∷ cs) (d ∷ ds) =
    let rest = strcmp_equal_iff cs ds in
    let first = ==_iff c d in
    (
      (λ h.
          let both = and_iff (c == d) (strcmp_equal cs ds) h in
          ap₂ (λ x xs. x ∷ xs) (first.0 (both.0)) (rest.0 (both.1))),
      (λ e. rw (first.1 (ap (λ l. get_or l 0 0) e), rest.1 (ap (λ l. drop 1 l) e)) refl),
    )

pub c_string-nonzero : (s : List ℕ) → All (λ c. c ≢ 0) s → c_string s ≡ s
unfolding c_string
c_string-nonzero [] h = refl
c_string-nonzero (c ∷ s) h =
    let other : (c == 0) ≡ false = (let ne : c ≢ 0 = h.0 in ground arith) in
    rw other (ap (◌∷◌ c) (c_string-nonzero s (h.1)))
