-- ===== src/Config.antt =====
-- ini_parser.c: the reader of config.ini and the checks of the two configurations.
-- A byte is a number below 256, and a C string the list of its characters before its zero. `char`
-- is signed, as on x86, so the byte 255 is `EOF`.
pub mod Lines
pub mod Read
pub mod Report
pub mod Limits
pub mod Checks
pub mod Print
pub mod Reparse
mod Tests
use spsc.Prelude.{
  ℕ, zero, suc, ◌+◌, Bool, true, false, Option, none, some, List, [], ◌∷◌, ◌++◌, ltb, ◌==◌,
  if◌then◌else◌, ◌&&◌, ◌||◌, length, c_string, Run, returned, assertion_failed, undefined, check,
  ◌>>=◌, ◌>>◌,
}

abbrev pub max_configs : ℕ
max_configs = 10

-- the length of the array that a line is read into
abbrev pub line_size : ℕ
line_size = 1024

abbrev pub eof : ℕ
eof = 255

pub record IniPair : Type 0 where
  pub key : List ℕ
  pub value : List ℕ

-- `section`; `count` is the number of its pairs.
pub record Section : Type 0 where
  pub name : List ℕ
  pub config_pair : List IniPair

-- What one call of `read_line` gives: a pair, a section, or false.
pub data Line : Type 0 where
  pair : List ℕ → List ℕ → Line
  section : List ℕ → Line
  over : Line

-- The loop in which the next byte is read: the outer one, the one of `[`, or the one of `#`.
pub data Mode : Type 0 where
  outer : Mode
  in_section : Mode
  in_comment : Mode

-- The place in `read_line`: the loop, `*k`, and the bytes `s[0 .. i)`.
pub record Reader : Type 0 where
  pub mode : Mode
  pub k : Option (List ℕ)
  pub s : List ℕ

pub data Round : Type 0 where
  goes_on : Reader → Round
  ends : Run Line → Round

-- `strdup(s)`, where a zero follows within the array
unfoldable pub strdup : List ℕ → Run (List ℕ)
strdup s = if ltb (length (c_string s)) line_size then returned (c_string s) else undefined

-- `s[i++] = ch`
unfoldable pub push : Reader → ℕ → Round
push r ch =
    if ltb (length r.s) line_size then goes_on (record r { s = r.s ++ ch ∷ [] }) else ends undefined

unfoldable pub at_eof : Reader → Run Line
at_eof r = elim r.mode [
  | outer ↦ elim r.k [ none ↦ returned over | some k ↦ strdup r.s >>= λ v. returned (pair k v) ]
  | in_section ↦ returned over
  | in_comment ↦ returned over
]

-- the end of a key, at `=`
unfoldable pub end_key : Reader → Round
end_key r = elim (strdup r.s) [
  | returned k ↦ goes_on (record r { k = some k; s = [] })
  | _ ↦ ends undefined
]

-- the body of the outer loop at one byte
unfoldable pub outer_round : Reader → ℕ → Round
outer_round r ch =
    if ch == 0
    then ends (returned over)
    else if ch == 91
    then goes_on (record r { mode = in_section })
    else if ch == eof
    then ends (at_eof r)
    else if ch == 35
    then goes_on (record r { mode = in_comment })
    else if (ch == 9) || (ch == 32) || (ch == 13)
    then goes_on r
    else if ch == 61
    then end_key r
    else if ch == 10
    then elim r.k [ none ↦ goes_on r | some k ↦ ends (strdup r.s >>= λ v. returned (pair k v)) ]
    else push r ch

-- After a zero in a section's name the outer loop goes on with that zero.
unfoldable pub round : Reader → ℕ → Round
round r ch = elim r.mode [
  | outer ↦ outer_round r ch
  | in_section ↦
      if ch == 93
      then ends (strdup r.s >>= λ name. returned (section name))
      else if ch == eof
      then ends (at_eof r)
      else if ch == 0
      then push (record r { mode = outer }) ch
      else push r ch
  | in_comment ↦
      if ch == eof
      then ends (at_eof r)
      else if (ch == 10) || (ch == 0)
      then goes_on (record r { mode = outer })
      else goes_on r
]

-- The rest of one call of `read_line` on the bytes still unread, with those that it leaves.
unfoldable pub read_from : List ℕ → Reader → Run (Line × List ℕ)
read_from [] r = at_eof r >>= λ line. returned (line, [])
read_from (ch ∷ rest) r = elim (round r ch) [
  | goes_on r' ↦ read_from rest r'
  | ends result ↦ result >>= λ line. returned (line, rest)
]

unfoldable pub read_line : List ℕ → Run (Line × List ℕ)
read_line input = read_from input (record { mode = outer; k = none; s = [] })

abbrev pub get_ini_pair : List ℕ → List ℕ → IniPair
get_ini_pair k v = record { key = k; value = v }

-- It has no caller.
abbrev get_empty_ini_pair : IniPair
get_empty_ini_pair = get_ini_pair [] []

abbrev pub get_section : List ℕ → Section
get_section name = record { name = name; config_pair = [] }

-- The table `config_pair` has `max_configs` places, and the write comes before the test.
unfoldable pub add_pair : Section → List ℕ → List ℕ → Run Section
add_pair s k v =
    if ltb (length s.config_pair) max_configs
    then returned (record s { config_pair = s.config_pair ++ get_ini_pair k v ∷ [] })
    else undefined

-- the sections with the one that is read
unfoldable pub opened : List Section → Option Section → List Section
opened sections none = sections
opened sections (some c) = sections ++ c ∷ []

-- The body of the loop of `ini_parse`, with the rest of the loop as an argument. The sections are
-- those before `curr_section`. Their table is allocated three times as large as its limit, so the
-- write before the test stays in it.
unfoldable pub parse_line :
    (List ℕ → List Section → Option Section → Run (Option (List Section)))
    → List Section
    → Option Section
    → Line
    → List ℕ
    → Run (Option (List Section))
parse_line next sections curr_section over rest = returned (some (opened sections curr_section))
parse_line next sections curr_section (section name) rest =
    let before = opened sections curr_section in
    check (ltb (length before) max_configs) >> next rest before (some (get_section name))
parse_line next sections none (pair k v) rest = undefined
parse_line next sections (some c) (pair k v) rest =
    add_pair c k v >>= λ c'. next rest sections (some c')

-- The result is none when the fuel, the first argument, ends before the loop does.
unfoldable pub ini_parse_from :
    ℕ → List ℕ → List Section → Option Section → Run (Option (List Section))
ini_parse_from zero input sections curr_section = returned none
ini_parse_from (suc fuel) input sections curr_section = read_line input >>= λ found.
    parse_line (ini_parse_from fuel) sections curr_section (found.0) (found.1)

-- Each call of `read_line` that gives a pair or a section reads a byte at least.
unfoldable pub ini_parse : List ℕ → Run (Option (List Section))
ini_parse input = ini_parse_from (suc (length input)) input [] none
