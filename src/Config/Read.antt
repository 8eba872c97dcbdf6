-- ===== src/Config/Read.antt =====
-- ini_parser.c: the two configurations, what the sections put into them, and the checks. The C
-- library's `atoi` is an argument.
use spsc.Prelude.{
  ℕ, Bool, true, false, Option, none, some, List, [], ◌∷◌, if◌then◌else◌, ◌&&◌, ◌||◌, not,
  strcmp_equal, ℤ, pos, ltb_ℤ, Run, returned, exited, check, ◌>>=◌, ◌>>◌,
}
use spsc.Config.{IniPair, Section}

-- "BUFFERS"
abbrev pub buffers_key : List ℕ
buffers_key = 66 ∷ 85 ∷ 70 ∷ 70 ∷ 69 ∷ 82 ∷ 83 ∷ []

-- "USE_BUFFERS"
abbrev pub use_buffers_key : List ℕ
use_buffers_key = 85 ∷ 83 ∷ 69 ∷ 95 ∷ 66 ∷ 85 ∷ 70 ∷ 70 ∷ 69 ∷ 82 ∷ 83 ∷ []

-- "INPUT_TEXT_FILE"
abbrev pub input_text_file_key : List ℕ
input_text_file_key = 73 ∷ 78 ∷ 80 ∷ 85 ∷ 84 ∷ 95 ∷ 84 ∷ 69 ∷ 88 ∷ 84 ∷ 95 ∷ 70 ∷ 73 ∷ 76 ∷ 69 ∷ []

-- "OUTPUT_TEXT_FILE"
abbrev pub output_text_file_key : List ℕ
output_text_file_key =
    79 ∷ 85 ∷ 84 ∷ 80 ∷ 85 ∷ 84 ∷ 95 ∷ 84 ∷ 69 ∷ 88 ∷ 84 ∷ 95 ∷ 70 ∷ 73 ∷ 76 ∷ 69 ∷ []

-- "PATTERN"
abbrev pub pattern_key : List ℕ
pattern_key = 80 ∷ 65 ∷ 84 ∷ 84 ∷ 69 ∷ 82 ∷ 78 ∷ []

-- "DO_SEARCH"
abbrev pub do_search_key : List ℕ
do_search_key = 68 ∷ 79 ∷ 95 ∷ 83 ∷ 69 ∷ 65 ∷ 82 ∷ 67 ∷ 72 ∷ []

-- "port"
abbrev pub port_key : List ℕ
port_key = 112 ∷ 111 ∷ 114 ∷ 116 ∷ []

-- "PRODUCER"
abbrev pub jane_name : List ℕ
jane_name = 80 ∷ 82 ∷ 79 ∷ 68 ∷ 85 ∷ 67 ∷ 69 ∷ 82 ∷ []

-- "CONSUMER"
abbrev pub thor_name : List ℕ
thor_name = 67 ∷ 79 ∷ 78 ∷ 83 ∷ 85 ∷ 77 ∷ 69 ∷ 82 ∷ []

pub record JaneConfig : Type 0 where
  pub input_text_file : Option (List ℕ)
  pub buffers : ℤ
  pub use_buffers : ℤ
  pub port : ℤ

pub record ThorConfig : Type 0 where
  pub output_text_file : Option (List ℕ)
  pub pattern : Option (List ℕ)
  pub buffers : ℤ
  pub do_search : ℤ
  pub port : ℤ

-- the two as `calloc` leaves them
abbrev pub no_jane : JaneConfig
no_jane = record { input_text_file = none; buffers = pos 0; use_buffers = pos 0; port = pos 0 }

abbrev pub no_thor : ThorConfig
no_thor = record {
  output_text_file = none;
  pattern = none;
  buffers = pos 0;
  do_search = pos 0;
  port = pos 0;
}

-- `a == b`
abbrev pub eq_ℤ : ℤ → ℤ → Bool
eq_ℤ a b = not (ltb_ℤ a b || ltb_ℤ b a)

abbrev pub unset {ℓ} : {A : Type ℓ} → Option A → Bool
unset none = true
unset (some a) = false

-- the value of a number that is still zero, when the key is its own
unfoldable pub number : ℤ → Bool → ℤ → ℤ
number old its_key value = if eq_ℤ (pos 0) old && its_key then value else old

-- the same for a text that is still `NULL`
unfoldable pub string : Option (List ℕ) → Bool → List ℕ → Option (List ℕ)
string old its_key value = if unset old && its_key then some value else old

-- the same for the number of buffers, with `exit(1)` when it is out of range
unfoldable pub buffers_number : ℤ → Bool → ℤ → Run ℤ
buffers_number old its_key value =
    if eq_ℤ (pos 0) old && its_key
    then (if ltb_ℤ value (pos 2) || ltb_ℤ (pos 102399) value then exited else returned value)
    else returned old

-- the checks at the end
unfoldable pub check_configs : JaneConfig → ThorConfig → Run Bool
check_configs jane thor =
    if not (ltb_ℤ (pos 0) jane.buffers && eq_ℤ jane.buffers thor.buffers)
    then returned false
    else if not (ltb_ℤ (pos 0) jane.use_buffers) && ltb_ℤ jane.buffers jane.use_buffers
    then returned false
    else if not (eq_ℤ (pos 0) thor.do_search) && not (eq_ℤ (pos 1) thor.do_search)
    then returned false
    else if eq_ℤ (pos 0) jane.port || not (eq_ℤ jane.port thor.port)
    then returned false
    else if eq_ℤ (pos 1) thor.do_search
    then (check (not (unset thor.pattern)) >> returned true)
    else returned true

module _ (atoi : List ℕ → ℤ) where
  -- the loop over the pairs of a section of the producer
  unfoldable pub read_jane : List IniPair → JaneConfig → Run JaneConfig
  read_jane [] jane = returned jane
  read_jane (p ∷ pairs) jane =
      buffers_number jane.buffers (strcmp_equal buffers_key p.key) (atoi p.value) >>= λ buffers.
      read_jane pairs (record {
        input_text_file =
            string jane.input_text_file (strcmp_equal input_text_file_key p.key) p.value;
        buffers = buffers;
        use_buffers = number jane.use_buffers (strcmp_equal use_buffers_key p.key) (atoi p.value);
        port = number jane.port (strcmp_equal port_key p.key) (atoi p.value);
      })

  -- the loop over the pairs of a section of the consumer
  unfoldable pub read_thor : List IniPair → ThorConfig → Run ThorConfig
  read_thor [] thor = returned thor
  read_thor (p ∷ pairs) thor =
      buffers_number thor.buffers (strcmp_equal buffers_key p.key) (atoi p.value) >>= λ buffers.
      read_thor pairs (record {
        output_text_file =
            string thor.output_text_file (strcmp_equal output_text_file_key p.key) p.value;
        pattern = string thor.pattern (strcmp_equal pattern_key p.key) p.value;
        buffers = buffers;
        do_search = number thor.do_search (strcmp_equal do_search_key p.key) (atoi p.value);
        port = number thor.port (strcmp_equal port_key p.key) (atoi p.value);
      })

  -- the loop over the sections
  unfoldable pub read_sections :
      List Section → JaneConfig → ThorConfig → Run (JaneConfig × ThorConfig)
  read_sections [] jane thor = returned (jane, thor)
  read_sections (s ∷ sections) jane thor =
      (if strcmp_equal jane_name s.name then read_jane s.config_pair jane else returned jane)
      >>= λ jane'.
          (if strcmp_equal thor_name s.name then read_thor s.config_pair thor else returned thor)
          >>= λ thor'. read_sections sections jane' thor'

  -- `asgard_config_read` from the sections that `ini_parse` has read, with the configurations as it
  -- leaves them
  unfoldable pub asgard_config_read : List Section → Run (Bool × (JaneConfig × ThorConfig))
  asgard_config_read sections = read_sections sections no_jane no_thor >>= λ read.
      check_configs (read.0) (read.1) >>= λ ok. returned (ok, read)
