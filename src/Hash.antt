-- ===== src/Hash.antt =====
-- util.c: the readable form of an MD5 digest, and the check of a received piece against it.
-- OpenSSL's MD5 is the argument `md5`. A byte is a number below 256, a `char` its ASCII code, and a
-- C string the list of its characters before the zero that ends it.
pub mod Digits
pub mod Print
pub mod Intact
pub mod Bin
pub mod Zeros
pub mod Programs
pub mod Passes
mod Tests
use spsc.Prelude.{
  ℕ, ◌+◌, ◌-◌, ◌/◌, ◌%◌, Bool, true, false, List, [], ◌∷◌, c_string, strcmp_equal, ltb, ◌==◌,
  if◌then◌else◌, ◌&&◌, length, set, replicate, Run, returned, undefined, check, ◌>>=◌, ◌>>◌,
}

abbrev pub md5_digest_length : ℕ
md5_digest_length = 16

abbrev pub big_enough : ℕ
big_enough = 1024

-- The cases of the `switch`, in its order; the rest is its `default`.
unfoldable pub table : ℕ → ℕ
table num =
    if num == 1
    then 49
    else if num == 2
    then 50
    else if num == 3
    then 51
    else if num == 4
    then 52
    else if num == 5
    then 53
    else if num == 6
    then 54
    else if num == 7
    then 55
    else if num == 8
    then 56
    else if num == 9
    then 57
    else if num == 10
    then 65
    else if num == 11
    then 66
    else if num == 12
    then 67
    else if num == 13
    then 68
    else if num == 14
    then 69
    else if num == 15
    then 70
    else 48

unfoldable pub nibbles : ℕ → ℕ
nibbles ch =
    if ch == 49
    then 1
    else if ch == 50
    then 2
    else if ch == 51
    then 3
    else if ch == 52
    then 4
    else if ch == 53
    then 5
    else if ch == 54
    then 6
    else if ch == 55
    then 7
    else if ch == 56
    then 8
    else if ch == 57
    then 9
    else if ch == 65
    then 10
    else if ch == 66
    then 11
    else if ch == 67
    then 12
    else if ch == 68
    then 13
    else if ch == 69
    then 14
    else if ch == 70
    then 15
    else 0

-- `r[j] = v`; what the C standard says of a write past the end is nothing.
unfoldable pub write : List ℕ → ℕ → ℕ → Run (List ℕ)
write r j v = if ltb j (length r) then returned (set r j v) else undefined

-- The loop of `toDec` from index `j` of `r`, and the write of the final zero, which comes before
-- the test of its index.
unfoldable pub to_dec_from : List ℕ → ℕ → List ℕ → ℕ → Run (List ℕ)
to_dec_from [] j r rlen = write r j 0 >>= λ r'. check (ltb j rlen) >> returned r'
to_dec_from (byte ∷ b) j r rlen =
    check (ltb j rlen)
    >> (write r j (table (byte / 16 % 16)) >>= λ r'.
        check (ltb (j + 1) rlen)
        >> (write r' (j + 1) (table (byte % 16)) >>= λ r''. to_dec_from b (j + 2) r'' rlen))

unfoldable pub to_dec : List ℕ → List ℕ → ℕ → Run (List ℕ)
to_dec b r rlen = to_dec_from b 0 r rlen

module _ (md5 : List ℕ → List ℕ) where
  -- The array `d` has the length `dlen` or more. `snum` is not read.
  unfoldable pub readable_hash : List ℕ → List ℕ → ℕ → Run (List ℕ)
  readable_hash s d dlen = to_dec (md5 s) d dlen

  -- `sd` is what the local array holds at first.
  unfoldable pub does_string_intact : List ℕ → List ℕ → List ℕ → Run Bool
  does_string_intact sd s d =
      readable_hash s sd (big_enough - 1) >>= λ sd'. returned (strcmp_equal (c_string sd') d)
