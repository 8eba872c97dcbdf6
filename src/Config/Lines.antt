-- ===== src/Config/Lines.antt =====
-- ini_parser.c: the loop of `ini_parse` ends on every file.
use spsc.Prelude.{
  ℕ, zero, suc, ◌<◌, ◌≤◌, ◌≡◌, ◌≢◌, refl, arith, Option, none, some, List, [], ◌∷◌, length, Run,
  returned, assertion_failed, exited, undefined, check, ◌>>=◌, ltb,
}
use mathlib.Core.Path.{subst}
use spsc.Config.{
  Reader, Line, outer, pair, section, over, Round, goes_on, ends, Section, round, at_eof, read_from,
  read_line, add_pair, opened, parse_line, max_configs, ini_parse_from, ini_parse,
}

-- what is left of a result, when there is one
Left : List ℕ → Run (Line × List ℕ) → Type 0
Left input (returned r) = length (r.1) ≤ length input
Left input _ = Unit

Left-ended : (rest : List ℕ) (m : Run Line) → Left rest (m >>= λ line. returned (line, rest))
unfolding Left
Left-ended rest (returned line) = omega arith
Left-ended rest assertion_failed = tt
Left-ended rest exited = tt
Left-ended rest undefined = tt

Left-weaken : (x : ℕ) (xs : List ℕ) (m : Run (Line × List ℕ)) → Left xs m → Left (x ∷ xs) m
unfolding Left
Left-weaken x xs (returned r) h = omega (arith, h)
Left-weaken x xs assertion_failed h = tt
Left-weaken x xs exited h = tt
Left-weaken x xs undefined h = tt

Left-round :
    (rest : List ℕ) (round : Round)
    → ((r : Reader) → Left rest (read_from rest r))
    → Left rest (elim round as (λ _. Run (Line × List ℕ)) [
      | goes_on r ↦ read_from rest r
      | ends result ↦ result >>= λ line. returned (line, rest)
    ])
Left-round rest (goes_on r) h = h r
Left-round rest (ends result) h = Left-ended rest result

Left-read_from : (input : List ℕ) (r : Reader) → Left input (read_from input r)
unfolding read_from
Left-read_from [] r = Left-ended [] (at_eof r)
Left-read_from (ch ∷ rest) r =
    Left-weaken ch rest (read_from (ch ∷ rest) r)
      (Left-round rest (round r ch) (Left-read_from rest))

-- a line reads a byte at least
Left-read_line : (ch : ℕ) (rest : List ℕ) → Left rest (read_line (ch ∷ rest))
unfolding read_from read_line
Left-read_line ch rest =
    Left-round rest (round (record { mode = outer; k = none; s = [] }) ch) (Left-read_from rest)

-- that a result is not the end of the fuel
Enough : Run (Option (List Section)) → Type 0
Enough (returned none) = ⊥
Enough _ = Unit

Enough-bind {ℓ} :
    {A : Type ℓ} (m : Run A) (f : A → Run (Option (List Section)))
    → ((a : A) → m ≡ returned a → Enough (f a))
    → Enough (m >>= f)
unfolding Enough
Enough-bind (returned a) f h = h a refl
Enough-bind assertion_failed f h = tt
Enough-bind exited f h = tt
Enough-bind undefined f h = tt

Enough-parse_line :
    (next : List ℕ → List Section → Option Section → Run (Option (List Section)))
    (sections : List Section) (curr_section : Option Section) (line : Line) (rest : List ℕ)
    → ((sections' : List Section) (curr' : Option Section) → Enough (next rest sections' curr'))
    → Enough (parse_line next sections curr_section line rest)
unfolding parse_line Enough
Enough-parse_line next sections curr_section over rest h = tt
Enough-parse_line next sections curr_section (section name) rest h =
    Enough-bind (check (ltb (length (opened sections curr_section)) max_configs))
      (λ _.
        next rest (opened sections curr_section) (some (record { name = name; config_pair = [] })))
      (λ _ _. h (opened sections curr_section) (some (record { name = name; config_pair = [] })))
Enough-parse_line next sections none (pair k v) rest h = tt
Enough-parse_line next sections (some c) (pair k v) rest h =
    Enough-bind (add_pair c k v) (λ c'. next rest sections (some c')) (λ c' _. h sections (some c'))

ini_parse_from-Enough :
    (fuel : ℕ) (input : List ℕ) (sections : List Section) (curr_section : Option Section)
    → length input < fuel
    → Enough (ini_parse_from fuel input sections curr_section)
unfolding ini_parse_from
ini_parse_from-Enough zero input sections curr_section h = absurd (omega (arith, h))
ini_parse_from-Enough (suc fuel) [] sections curr_section h =
    unfold read_line read_from at_eof parse_line Enough in tt
ini_parse_from-Enough (suc fuel) (ch ∷ rest) sections curr_section h =
    Enough-bind (read_line (ch ∷ rest))
      (λ found. parse_line (ini_parse_from fuel) sections curr_section (found.0) (found.1))
      (λ found e.
        let less : length (found.1) ≤ length rest =
          unfold Left in subst (Left rest) e (Left-read_line ch rest) in
        Enough-parse_line (ini_parse_from fuel) sections curr_section (found.0) (found.1)
          (λ sections' curr'.
            ini_parse_from-Enough fuel (found.1) sections' curr' (omega (arith, less, h))))

-- On every file the loop of `ini_parse` ends within one round more than the file has bytes, be it
-- with the sections or with a failure.
pub ini_parse-ends : (input : List ℕ) → ini_parse input ≢ returned none
unfolding ini_parse Enough
ini_parse-ends input e =
    subst Enough e (ini_parse_from-Enough (suc (length input)) input [] none (omega arith))
