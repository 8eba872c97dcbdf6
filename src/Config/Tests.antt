-- ===== src/Config/Tests.antt =====
-- Runs of ini_parser.c.
use spsc.Prelude.{suc, ℤ, negsuc, codes}
use spsc.Examples.{print_width}
use spsc.Config.Read.{input_text_file_key, output_text_file_key}
use spsc.Config.Report.{print_jane_config, print_thor_config, program}
use spsc.Prelude.{
  ℕ, ◌≤◌, ◌<◌, ◌≡◌, arith, ◌≢◌, ◌⊎◌, refl, List, [], ◌∷◌, true, none, some, pos, strcmp_equal,
  c_string, returned, undefined,
}
use spsc.Examples.{atoi}
use spsc.Config.{
  IniPair, Section, strdup, push, at_eof, end_key, outer_round, round, read_from, read_line,
  add_pair, opened, parse_line, ini_parse_from, ini_parse,
}
use spsc.Config.Lines.{ini_parse-ends}
use spsc.Config.Read.{
  JaneConfig, ThorConfig, number, string, buffers_number, read_jane, read_thor, read_sections,
  check_configs, asgard_config_read, buffers_key, port_key, jane_name, thor_name, no_jane, no_thor,
}
use spsc.Config.Print.{IsPlain, print}
use spsc.Config.Reparse.{ini_parse-print}
use spsc.Config.Checks.{asgard_config_read_accepts, check_configs_any_use_buffers}

-- two sections of two lines each, the last of which the end of the file ends
abbrev file : List ℕ
file =
    91 ∷ 80 ∷ 82 ∷ 79 ∷ 68 ∷ 85 ∷ 67 ∷ 69 ∷ 82 ∷ 93 ∷ 10 ∷ 66 ∷ 85 ∷ 70 ∷ 70 ∷ 69 ∷ 82 ∷ 83 ∷ 32
    ∷ 61 ∷ 32 ∷ 50 ∷ 10 ∷ 112 ∷ 111 ∷ 114 ∷ 116 ∷ 61 ∷ 55 ∷ 10 ∷ 91 ∷ 67 ∷ 79 ∷ 78 ∷ 83 ∷ 85 ∷ 77
    ∷ 69 ∷ 82 ∷ 93 ∷ 10 ∷ 66 ∷ 85 ∷ 70 ∷ 70 ∷ 69 ∷ 82 ∷ 83 ∷ 61 ∷ 50 ∷ 10 ∷ 112 ∷ 111 ∷ 114 ∷ 116
    ∷ 61 ∷ 55 ∷ []

abbrev jane_pairs : List IniPair
jane_pairs =
    record { key = buffers_key; value = 50 ∷ [] } ∷ record { key = port_key; value = 55 ∷ [] } ∷ []

abbrev sections : List Section
sections =
    record { name = jane_name; config_pair = jane_pairs }
    ∷ record { name = thor_name; config_pair = jane_pairs }
    ∷ []

file-sections : ini_parse file ≡ returned (some sections)
unfolding ini_parse ini_parse_from parse_line opened add_pair read_line read_from round outer_round
    end_key at_eof push strdup c_string
file-sections = refl

-- a pair before the first section is put into a section that nothing points to
pair_first : ini_parse (97 ∷ 61 ∷ 98 ∷ 10 ∷ []) ≡ undefined
unfolding ini_parse ini_parse_from parse_line opened add_pair read_line read_from round outer_round
    end_key at_eof push strdup c_string
pair_first = refl

ini_parse-ends_example : ini_parse file ≢ returned none
ini_parse-ends_example = ini_parse-ends file

abbrev jane : JaneConfig
jane = record no_jane { buffers = pos 2; port = pos 7 }

abbrev thor : ThorConfig
thor = record no_thor { buffers = pos 2; port = pos 7 }

accepted : asgard_config_read atoi sections ≡ returned (true, (jane, thor))
unfolding asgard_config_read read_sections read_jane read_thor check_configs number string
    buffers_number strcmp_equal
accepted = refl

asgard_config_read_accepts_example :
    (((n : ℕ) × (jane.buffers ≡ pos n) × (2 ≤ n) × (n ≤ 102399)) × (thor.buffers ≡ jane.buffers))
    × (((thor.do_search ≡ pos 0) ⊎ ((thor.do_search ≡ pos 1) × (thor.pattern ≢ none)))
        × ((jane.port ≢ pos 0) × (thor.port ≡ jane.port)))
asgard_config_read_accepts_example = asgard_config_read_accepts atoi sections jane thor accepted

check_configs_any_use_buffers_example :
    check_configs (record jane { use_buffers = pos 100 }) thor ≡ check_configs jane thor
check_configs_any_use_buffers_example = check_configs_any_use_buffers jane thor (pos 100)

letter-IsPlain : (c : ℕ) → 97 ≤ c → c < 123 → IsPlain c
letter-IsPlain c h h' = (
  omega arith,
  omega arith,
  omega arith,
  omega arith,
  omega arith,
  omega arith,
  omega arith,
  omega arith,
  omega arith,
)

-- two sections, with a pair each
abbrev printed_sections : List Section
printed_sections =
    record { name = 65 ∷ []; config_pair = record { key = 107 ∷ []; value = 118 ∷ [] } ∷ [] }
    ∷ record { name = []; config_pair = record { key = []; value = 118 ∷ [] } ∷ [] }
    ∷ []

ini_parse-print_example : ini_parse (print printed_sections) ≡ returned (some printed_sections)
ini_parse-print_example =
    ini_parse-print printed_sections
      (
        (
          ((omega arith, omega arith, omega arith), tt),
          omega arith,
          (
            (
              (letter-IsPlain 107 (omega arith) (omega arith), tt),
              omega arith,
              (letter-IsPlain 118 (omega arith) (omega arith), tt),
              omega arith,
            ),
            tt,
          ),
          omega arith,
        ),
        (
          (
            tt,
            omega arith,
            (
              (tt, omega arith, (letter-IsPlain 118 (omega arith) (omega arith), tt), omega arith),
              tt,
            ),
            omega arith,
          ),
          tt,
        ),
      )
      (omega arith)

abbrev print_ℤ : ℤ → List ℕ
print_ℤ (pos n) = print_width 1 n
print_ℤ (negsuc n) = 45 ∷ print_width 1 (suc n)

jane_printed :
    print_jane_config print_ℤ (record {
      input_text_file = some (codes "in");
      buffers = pos 2;
      use_buffers = pos 1;
      port = pos 7;
    })
    ≡ returned (
        codes
          "jane_config is:\ninput_text_file = in\nbuffers = 2\nuse_buffers = 1\nport = 7\n<-------->\n")
unfolding print_jane_config
jane_printed = refl

-- Where the search is off no pattern is asked for, and the test program prints one all the same.
no_pattern :
    print_thor_config print_ℤ (record no_thor { output_text_file = some (codes "out") }) ≡ undefined
unfolding print_thor_config
no_pattern = refl

abbrev two_texts : List Section
two_texts =
    record {
      name = jane_name;
      config_pair = record { key = input_text_file_key; value = 105 ∷ [] } ∷ jane_pairs;
    }
    ∷ record {
      name = thor_name;
      config_pair = record { key = output_text_file_key; value = 111 ∷ [] } ∷ jane_pairs;
    }
    ∷ []

accepted_undefined : program print_ℤ atoi two_texts ≡ undefined
unfolding program print_jane_config print_thor_config asgard_config_read read_sections read_jane
    read_thor buffers_number number string check_configs strcmp_equal
accepted_undefined = refl
