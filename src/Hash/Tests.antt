-- ===== src/Hash/Tests.antt =====
-- Runs of util.c, with a stand-in for MD5 that gives one byte for all of the text.
use spsc.Prelude.{
  ℕ, ◌<◌, ◌≡◌, ◌↔◌, arith, List, [], ◌∷◌, ◌++◌, All, length, replicate, drop, true, c_string,
  returned, ◌>>=◌, length-replicate,
}
use spsc.Examples.{stand_in, stand_in-length, stand_in-bytes, below}
use spsc.Hash.{to_dec, readable_hash, does_string_intact}
use spsc.Hash.Print.{hex, to_dec_lem}
use spsc.Hash.Bin.{to_bin}
use spsc.Hash.Zeros.{to_bin_zeros}
use spsc.Hash.Intact.{does_string_intact_iff}

abbrev two_bytes : List ℕ
two_bytes = 171 ∷ 7 ∷ []

two_bytes_small : All (λ byte. byte < 256) two_bytes
two_bytes_small = (omega arith, (below, tt))

to_dec_lem_example :
    to_dec two_bytes (1 ∷ 2 ∷ 3 ∷ 4 ∷ 5 ∷ 6 ∷ []) 6
    ≡ returned (hex two_bytes ++ 0 ∷ drop 5 (1 ∷ 2 ∷ 3 ∷ 4 ∷ 5 ∷ 6 ∷ []))
to_dec_lem_example =
    to_dec_lem two_bytes (1 ∷ 2 ∷ 3 ∷ 4 ∷ 5 ∷ 6 ∷ []) 6 two_bytes_small (omega arith) (omega arith)

abbrev fun : List ℕ
fun = 102 ∷ 117 ∷ 110 ∷ []

abbrev array : List ℕ
array = replicate 1024 9

does_string_intact_iff_example :
    ((readable_hash stand_in fun array (length array) >>= λ d.
    does_string_intact stand_in array fun (c_string d))
      ≡ returned true)
    ↔ (stand_in fun ≡ stand_in fun)
does_string_intact_iff_example =
    let size : length array ≡ 1024 = length-replicate {A = ℕ} 1024 9 in
    does_string_intact_iff stand_in stand_in-length stand_in-bytes fun fun array array
      (omega (arith, size)) size

-- "AB07" becomes two zeros.
to_bin_zeros_example :
    to_bin (65 ∷ 66 ∷ 48 ∷ 55 ∷ []) 4 (9 ∷ 9 ∷ 9 ∷ []) 3 ≡ returned (0 ∷ 0 ∷ 9 ∷ [])
to_bin_zeros_example =
    to_bin_zeros 2 (65 ∷ 66 ∷ 48 ∷ 55 ∷ []) (9 ∷ 9 ∷ 9 ∷ []) 3 (omega arith) (omega arith)
      (omega arith)
