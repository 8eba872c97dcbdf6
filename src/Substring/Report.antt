-- ===== src/Substring/Report.antt =====
-- `print_sstring` of substring.c: what is printed about a search.
use spsc.Prelude.{
  Run, returned, ◌>>=◌, Bool, true, false, ℕ, zero, suc, ◌+◌, List, [], ◌++◌, get_or, codes,
}
use spsc.Substring.{Sstring, max_occurance, sstring_init, sstring_compute}

module _ (print_int : ℕ → List ℕ) where
  -- The loop over the places, with the rounds left.
  unfoldable pub print_locations : ℕ → ℕ → List ℕ → List ℕ
  print_locations zero i locations = []
  print_locations (suc rounds) i locations =
      codes "lcoation["
      ++ (print_int i
          ++ (codes "] = "
              ++ (print_int (get_or locations i 0)
                  ++ (codes ".\n" ++ print_locations rounds (i + 1) locations))))

  -- What is printed, with further lines before the last.
  unfoldable pub report : List ℕ → Sstring → List ℕ
  unfolding print_locations
  report further ss =
      codes "--------> pattern stastics <---------------\n"
      ++ (codes "pattern <"
          ++ (ss.pattern
              ++ (codes "> is found "
                  ++ (print_int ss.count
                      ++ (codes " times.\n"
                          ++ (print_locations ss.count 0 ss.locations
                              ++ (further
                                  ++ codes "-------------------------------------------\n")))))))

  -- without `DEBUG_SSTRING`
  unfoldable pub print_sstring : Sstring → List ℕ
  unfolding report
  print_sstring = report []

  abbrev flag : Bool → ℕ
  flag false = 0
  flag true = 1

  -- with `DEBUG_SSTRING`; `max_occurance` is the same in every `sstring`
  unfoldable pub print_sstring_debug : Sstring → List ℕ
  unfolding report
  print_sstring_debug ss =
      report
        (codes "max occurance allowed is "
          ++ (print_int max_occurance
              ++ (codes ".\ncurrent state = "
                  ++ (print_int ss.state
                      ++ (codes ", total_states are  = "
                          ++ (print_int ss.total_states
                              ++ (codes " done = "
                                  ++ (print_int (flag ss.done) ++ codes ".\n"))))))))
        ss

  -- `main`, which is built with `DEBUG_SSTRING`
  unfoldable pub program : Run (List ℕ)
  unfolding print_sstring_debug
  program = do
    let d = codes "madgaimad"
    first ← sstring_compute (sstring_init (codes "mad")) d
    second ← sstring_compute first d
    returned (print_sstring_debug second)
