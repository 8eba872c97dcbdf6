-- ===== src/Config/Report.antt =====
-- What ini_parser.c prints of the two configurations, and its test program. A text that is `NULL` is
-- none, and `%s` of it is undefined.
use spsc.Prelude.{
  ℕ, Option, none, some, List, ◌++◌, ℤ, codes, Run, returned, undefined, check, ◌>>=◌, ◌>>◌,
}
use spsc.Config.{Section}
use spsc.Config.Read.{JaneConfig, ThorConfig, asgard_config_read}

-- what `%s` prints
abbrev text : Option (List ℕ) → Run (List ℕ)
text none = undefined
text (some s) = returned s

abbrev line : List ℕ → List ℕ → List ℕ
line name value = name ++ (codes " = " ++ (value ++ codes "\n"))

abbrev rule : List ℕ
rule = codes "<-------->\n"

module _ (print_int : ℤ → List ℕ) where
  unfoldable pub print_jane_config : JaneConfig → Run (List ℕ)
  print_jane_config jane = do
    input_text_file ← text jane.input_text_file
    returned (
        codes "jane_config is:\n"
        ++ (line (codes "input_text_file") input_text_file
            ++ (line (codes "buffers") (print_int jane.buffers)
                ++ (line (codes "use_buffers") (print_int jane.use_buffers)
                    ++ (line (codes "port") (print_int jane.port) ++ rule)))))

  unfoldable pub print_thor_config : ThorConfig → Run (List ℕ)
  print_thor_config thor = do
    output_text_file ← text thor.output_text_file
    pattern ← text thor.pattern
    returned (
        codes "thor_config is:\n"
        ++ (line (codes "output_text_file") output_text_file
            ++ (line (codes "buffers") (print_int thor.buffers)
                ++ (line (codes "pattern") pattern
                    ++ (line (codes "do_search") (print_int thor.do_search)
                        ++ (line (codes "port") (print_int thor.port) ++ rule))))))

  -- `main`: what is printed, from the sections that `ini_parse` has read
  unfoldable pub program : (List ℕ → ℤ) → List Section → Run (List ℕ)
  program atoi sections = do
    (accepted, read) ← asgard_config_read atoi sections
    check accepted
    jane ← print_jane_config (read.0)
    thor ← print_thor_config (read.1)
    returned (jane ++ thor)
