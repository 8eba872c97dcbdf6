-- ===== src/Message/Tests.antt =====
-- Runs of the texts of jane.c and thor.c, with numbers printed in ten digits.
use spsc.Prelude.{◌≡◌, arith, [], ◌∷◌, pos, returned}
use spsc.Examples.{print_int, atoi, reads, not_comma, length-print_width}
use spsc.Message.{payload, parse_data}
use spsc.Message.Parse.{parse_data-payload}

parse_data-payload_example :
    parse_data atoi (payload print_int 3 7 2500 (65 ∷ 66 ∷ []))
    ≡ returned (record { num = pos 3; offset = pos 7; len = pos 2500; md5 = 65 ∷ 66 ∷ [] })
parse_data-payload_example =
    parse_data-payload atoi print_int reads (not_comma 10)
      (λ n h. omega (arith, length-print_width 10 n)) 3 7 2500 (65 ∷ 66 ∷ []) (omega arith)
      (omega arith) (omega arith) (omega arith) (omega arith) (omega arith)
