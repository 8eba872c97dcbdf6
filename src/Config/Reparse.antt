-- ===== src/Config/Reparse.antt =====
-- `ini_parse` of ini_parser.c on a configuration that `print` writes.
use spsc.Prelude.{
  ℕ, zero, suc, ◌+◌, ◌-◌, ◌≤◌, ◌<◌, ◌≡◌, refl, ap, sym, ◌∙◌, arith, true, Option, none, some, List,
  [], ◌∷◌, ◌++◌, append_assoc, append-nil, All, length, length-append, ltb, returned,
}
use spsc.Config.{
  IniPair, Section, over, at_eof, read_from, read_line, add_pair, opened, parse_line,
  ini_parse_from, ini_parse, max_configs,
}
use spsc.Config.Print.{
  print_pairs, print, IsPair, IsSection, read_line-pair, read_line-section, read_line-newline,
}

-- the fuel that is left when the lines of some pairs have been read, and those of some sections
abbrev lines : List IniPair → ℕ → ℕ
lines [] fuel = fuel
lines (p ∷ ps) fuel = suc (lines ps fuel)

abbrev all_lines : List Section → ℕ → ℕ
all_lines [] fuel = fuel
all_lines (s ∷ ss) fuel = suc (lines s.config_pair (all_lines ss fuel))

add_pair_lem :
    (s : Section) (p : IniPair)
    → length s.config_pair < 10
    → add_pair s p.key p.value ≡ returned (record s { config_pair = s.config_pair ++ p ∷ [] })
unfolding add_pair
add_pair_lem s p h =
    let fits : ltb (length s.config_pair) max_configs ≡ true = ground arith in rw fits refl

ini_parse_from-pairs :
    (ps : List IniPair) (fuel : ℕ) (rest : List ℕ) (before : List Section) (s : Section)
    → All IsPair ps
    → length s.config_pair + length ps ≤ 10
    → ini_parse_from (lines ps fuel) (print_pairs ps rest) before (some s)
      ≡ ini_parse_from fuel rest before (some (record s { config_pair = s.config_pair ++ ps }))
unfolding ini_parse_from parse_line
ini_parse_from-pairs [] fuel rest before s h few =
    ap (λ l. ini_parse_from fuel rest before (some (record s { config_pair = l })))
      (sym (append-nil s.config_pair))
ini_parse_from-pairs (p ∷ ps) fuel rest before s h few =
    rw (read_line-pair p (print_pairs ps rest) (h.0), add_pair_lem s p (omega (arith, few)))
      (ini_parse_from-pairs ps fuel rest before (record s { config_pair = s.config_pair ++ p ∷ [] })
          (h.1) (omega (arith, few, length-append s.config_pair (p ∷ [])))
        ∙ ap (λ l. ini_parse_from fuel rest before (some (record s { config_pair = l })))
            (append_assoc s.config_pair (p ∷ []) ps))

ini_parse_from-newline :
    (fuel : ℕ) (rest : List ℕ) (before : List Section) (curr : Option Section)
    → ini_parse_from fuel (10 ∷ rest) before curr ≡ ini_parse_from fuel rest before curr
unfolding ini_parse_from
ini_parse_from-newline zero rest before curr = refl
ini_parse_from-newline (suc fuel) rest before curr = rw (read_line-newline rest) refl

read_line_end : read_line [] ≡ returned (over, [])
unfolding read_line read_from at_eof
read_line_end = refl

ini_parse_from-print :
    (ss : List Section) (fuel : ℕ) (before : List Section) (curr : Option Section)
    → All IsSection ss
    → length (opened before curr) + length ss ≤ 10
    → ini_parse_from (all_lines ss (suc fuel)) (print ss) before curr
      ≡ returned (some (opened before curr ++ ss))
unfolding ini_parse_from parse_line opened
ini_parse_from-print [] fuel before curr h few =
    rw read_line_end (ap (λ l. returned (some l)) (sym (append-nil (opened before curr))))
ini_parse_from-print (s ∷ ss) fuel before curr ((named, size, pairs, short), h) few =
    let sofar = opened before curr in
    let room : ltb (length sofar) max_configs ≡ true =
      (let lt : length sofar < 10 = omega (arith, few) in ground arith) in
    rw (read_line-section s.name (10 ∷ print_pairs s.config_pair (print ss)) named size, room)
      (ini_parse_from-newline (lines s.config_pair (all_lines ss (suc fuel)))
          (print_pairs s.config_pair (print ss)) sofar
          (some (record { name = s.name; config_pair = [] }))
        ∙ ini_parse_from-pairs s.config_pair (all_lines ss (suc fuel)) (print ss) sofar
            (record { name = s.name; config_pair = [] }) pairs (omega (arith, short))
        ∙ ini_parse_from-print ss fuel sofar (some s) h
            (omega (arith, few, length-append sofar (s ∷ [])))
        ∙ ap (λ l. returned (some l)) (append_assoc sofar (s ∷ []) ss))

-- The text is longer than the lines are many.
lines-print_pairs :
    (ps : List IniPair) (rest : List ℕ) (count : ℕ)
    → count ≤ length rest
    → (n : ℕ) × (n ≤ length (print_pairs ps rest))
      × (count ≤ n)
      × ((fuel : ℕ) → lines ps (count + fuel) ≡ n + fuel)
lines-print_pairs [] rest count h = (count, h, omega arith, λ fuel. refl)
lines-print_pairs (p ∷ ps) rest count h =
    let (n, le, ge, e) = lines-print_pairs ps rest count h in
    (
      suc n,
      omega (
        arith,
        le,
        length-append p.key (61 ∷ (p.value ++ 10 ∷ print_pairs ps rest)),
        length-append p.value (10 ∷ print_pairs ps rest),
      ),
      omega (arith, ge),
      λ fuel. omega (arith, e fuel),
    )

all_lines-print :
    (ss : List Section)
    → (n : ℕ) × (n ≤ length (print ss)) × ((fuel : ℕ) → all_lines ss fuel ≡ n + fuel)
all_lines-print [] = (0, omega arith, λ fuel. omega arith)
all_lines-print (s ∷ ss) =
    let (count, le, e) = all_lines-print ss in
    let (n, le', ge, e') = lines-print_pairs s.config_pair (print ss) count le in
    (
      suc n,
      omega (arith, le', length-append s.name (93 ∷ 10 ∷ print_pairs s.config_pair (print ss))),
      λ fuel. omega (arith, e' fuel, ap (lines s.config_pair) (e fuel)),
    )

-- At most ten sections, of at most ten pairs each, with keys and values of fewer than 1,024 characters
-- that are none of those that the reader treats apart, and names of fewer that have no zero, no "]"
-- and no 255: printed line by line, they are read back.
pub ini_parse-print :
    (ss : List Section)
    → All IsSection ss
    → length ss ≤ 10
    → ini_parse (print ss) ≡ returned (some ss)
unfolding ini_parse opened
ini_parse-print ss h few =
    let (n, le, e) = all_lines-print ss in
    let fuel : suc (length (print ss)) ≡ all_lines ss (suc (length (print ss) - n)) =
      omega (arith, e (suc (length (print ss) - n)), le) in
    ap (λ k. ini_parse_from k (print ss) [] none) fuel
    ∙ ini_parse_from-print ss (length (print ss) - n) [] none h (omega (arith, few))
