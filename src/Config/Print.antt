-- ===== src/Config/Print.antt =====
-- The text of a configuration file, for ini_parser.c to read back.
use spsc.Prelude.{
  c_string-nonzero, All-map, ℕ, ◌+◌, ◌≤◌, ◌<◌, ◌≡◌, ◌≢◌, refl, ap, sym, ◌∙◌, arith, true, Option,
  none, some, List, [], ◌∷◌, ◌++◌, append_assoc, append-nil, All, length, length-append, ltb,
  returned,
}
use spsc.Config.{
  IniPair, Section, pair, section, Mode, outer, in_section, goes_on, strdup, push, end_key,
  outer_round, round, read_from, read_line, line_size,
}

abbrev pub print_pairs : List IniPair → List ℕ → List ℕ
print_pairs [] rest = rest
print_pairs (p ∷ ps) rest = p.key ++ 61 ∷ (p.value ++ 10 ∷ print_pairs ps rest)

-- "[name]", and a line for each pair
abbrev pub print : List Section → List ℕ
print [] = []
print (s ∷ ss) = 91 ∷ (s.name ++ 93 ∷ 10 ∷ print_pairs s.config_pair (print ss))

-- a character that a key or a value can hold
abbrev pub IsPlain : ℕ → Type 0
IsPlain c =
    (c ≢ 0) × (c ≢ 91) × (c ≢ 255) × (c ≢ 35) × (c ≢ 9) × (c ≢ 32) × (c ≢ 13) × (c ≢ 61) × (c ≢ 10)

abbrev pub IsNamed : ℕ → Type 0
IsNamed c = (c ≢ 0) × (c ≢ 93) × (c ≢ 255)

abbrev pub IsPair : IniPair → Type 0
IsPair p = All IsPlain p.key × (length p.key < 1024) × All IsPlain p.value × (length p.value < 1024)

abbrev pub IsSection : Section → Type 0
IsSection s =
    All IsNamed s.name
    × (length s.name < 1024)
    × All IsPair s.config_pair
    × (length s.config_pair ≤ 10)

round-plain :
    (k : Option (List ℕ)) (s : List ℕ) (c : ℕ)
    → IsPlain c
    → length s < 1024
    → round (record { mode = outer; k = k; s = s }) c
      ≡ goes_on (record { mode = outer; k = k; s = s ++ c ∷ [] })
unfolding round outer_round push
round-plain k s c h lt = ground arith

round-named :
    (k : Option (List ℕ)) (s : List ℕ) (c : ℕ)
    → IsNamed c
    → length s < 1024
    → round (record { mode = in_section; k = k; s = s }) c
      ≡ goes_on (record { mode = in_section; k = k; s = s ++ c ∷ [] })
unfolding round push
round-named k s c h lt = ground arith

read_word :
    (mode : Mode) (P : ℕ → Type 0)
    → ((k : Option (List ℕ)) (s : List ℕ) (c : ℕ)
        → P c
        → length s < 1024
        → round (record { mode = mode; k = k; s = s }) c
          ≡ goes_on (record { mode = mode; k = k; s = s ++ c ∷ [] }))
    → (word rest : List ℕ) (k : Option (List ℕ)) (s : List ℕ) → All P word
    → length s + length word < 1024
    → read_from (word ++ rest) (record { mode = mode; k = k; s = s })
      ≡ read_from rest (record { mode = mode; k = k; s = s ++ word })
unfolding read_from
read_word mode P steps [] rest k s h lt =
    ap (λ l. read_from rest (record { mode = mode; k = k; s = l })) (sym (append-nil s))
read_word mode P steps (c ∷ word) rest k s h lt =
    rw (steps k s c (h.0) (omega (arith, lt)), read_from)
      (read_word mode P steps word rest k (s ++ c ∷ []) (h.1)
          (omega (arith, lt, length-append s (c ∷ [])))
        ∙ ap (λ l. read_from rest (record { mode = mode; k = k; s = l }))
            (append_assoc s (c ∷ []) word))

strdup_lem : (s : List ℕ) → All (λ c. c ≢ 0) s → length s < 1024 → strdup s ≡ returned s
unfolding strdup
strdup_lem s h lt =
    let fits : ltb (length s) line_size ≡ true = ground arith in rw (c_string-nonzero s h, fits)

plain_nonzero : (s : List ℕ) → All IsPlain s → All (λ c. c ≢ 0) s
plain_nonzero s h = All-map IsPlain (λ c. c ≢ 0) s (λ c p. p.0) h

named_nonzero : (s : List ℕ) → All IsNamed s → All (λ c. c ≢ 0) s
named_nonzero s h = All-map IsNamed (λ c. c ≢ 0) s (λ c p. p.0) h

pub read_line-newline : (rest : List ℕ) → read_line (10 ∷ rest) ≡ read_line rest
unfolding read_line read_from round outer_round
read_line-newline rest = refl

read_from-equals :
    (key rest : List ℕ)
    → strdup key ≡ returned key
    → read_from (61 ∷ rest) (record { mode = outer; k = none; s = key })
      ≡ read_from rest (record { mode = outer; k = some key; s = [] })
unfolding read_from round outer_round end_key
read_from-equals key rest e = rw (e, read_from) refl

read_from-newline :
    (key value rest : List ℕ)
    → strdup value ≡ returned value
    → read_from (10 ∷ rest) (record { mode = outer; k = some key; s = value })
      ≡ returned (pair key value, rest)
unfolding read_from round outer_round
read_from-newline key value rest e = rw e refl

read_from-open :
    (rest : List ℕ)
    → read_from (91 ∷ rest) (record { mode = outer; k = none; s = [] })
      ≡ read_from rest (record { mode = in_section; k = none; s = [] })
unfolding read_from round outer_round
read_from-open rest = refl

read_from-close :
    (name rest : List ℕ)
    → strdup name ≡ returned name
    → read_from (93 ∷ rest) (record { mode = in_section; k = none; s = name })
      ≡ returned (section name, rest)
unfolding read_from round
read_from-close name rest e = rw e refl

-- A line of a pair is read as that pair.
pub read_line-pair :
    (p : IniPair) (rest : List ℕ)
    → IsPair p
    → read_line (p.key ++ 61 ∷ (p.value ++ 10 ∷ rest)) ≡ returned (pair p.key p.value, rest)
unfolding read_line
read_line-pair p rest (key, key_size, value, value_size) =
    read_word outer IsPlain round-plain p.key (61 ∷ (p.value ++ 10 ∷ rest)) none [] key
      (omega (arith, key_size))
    ∙ read_from-equals p.key (p.value ++ 10 ∷ rest)
        (strdup_lem p.key (plain_nonzero p.key key) key_size)
    ∙ read_word outer IsPlain round-plain p.value (10 ∷ rest) (some p.key) [] value
        (omega (arith, value_size))
    ∙ read_from-newline p.key p.value rest
        (strdup_lem p.value (plain_nonzero p.value value) value_size)

-- The line of a section is read as that section, up to the newline.
pub read_line-section :
    (name rest : List ℕ)
    → All IsNamed name
    → length name < 1024
    → read_line (91 ∷ (name ++ 93 ∷ rest)) ≡ returned (section name, rest)
unfolding read_line
read_line-section name rest named size =
    read_from-open (name ++ 93 ∷ rest)
    ∙ read_word in_section IsNamed round-named name (93 ∷ rest) none [] named (omega (arith, size))
    ∙ read_from-close name rest (strdup_lem name (named_nonzero name named) size)
