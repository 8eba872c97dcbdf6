-- ===== src/Hash/Programs.antt =====
-- The test programs of util.c. Each gives its result and what it prints; `print_int` is what `%d`
-- prints.
use spsc.Prelude.{
  ℕ, Bool, List, [], ◌++◌, ◌==◌, if◌then◌else◌, replicate, codes, c_string, Run, returned, check,
  ◌>>=◌, ◌>>◌,
}
use spsc.Hash.{to_dec, readable_hash, does_string_intact}
use spsc.Hash.Bin.{to_bin}

module _ (md5 : List ℕ → List ℕ) (print_int : ℕ → List ℕ) where
  -- `b1` is what the local array holds at first. `toDec` reads the digest in the array `md5`.
  unfoldable pub test1 : List ℕ → Run (ℕ × List ℕ)
  test1 b1 = do
    let digest = md5 (codes "funisgun")
    r ← to_dec digest (replicate 1024 0) 1024
    b ← to_bin r 1024 b1 1024
    r1 ← to_dec digest (replicate 1024 0) 1024
    returned (0, [])

  -- `(int) b`
  abbrev pub as_int : Bool → ℕ
  as_int b = if b then 1 else 0

  -- `sd` is what the local array of the check holds at first.
  unfoldable pub test2 : List ℕ → Run (ℕ × List ℕ)
  test2 sd = do
    d ← readable_hash md5 (codes "funisgun") (replicate 1024 0) 1024
    intact ← does_string_intact md5 sd (codes "funisgun") (c_string d)
    let dint = as_int intact
    let printed = codes "intact value is " ++ (print_int dint ++ codes "\n")
    check (1 == dint)
    returned (0, printed)

  unfoldable pub test3 : Run (ℕ × List ℕ)
  test3 = do
    d ← readable_hash md5 (codes "") (replicate 1024 0) 1024
    returned (0, codes "hash is " ++ (c_string d ++ codes "\n"))

  -- `main`, with what the three print
  unfoldable pub program : List ℕ → List ℕ → Run (List ℕ)
  unfolding test1 test2 test3
  program b1 sd = do
    first ← test1 b1
    check (0 == first.0)
    second ← test2 sd
    check (0 == second.0)
    third ← test3
    check (0 == third.0)
    returned (first.1 ++ (second.1 ++ third.1))
