-- ===== src/Hash/Passes.antt =====
-- The test programs of util.c come to their end.
use spsc.Prelude.{
  ℕ, suc, ◌*◌, ◌<◌, ◌≤◌, ◌≡◌, refl, arith, true, List, [], ◌∷◌, ◌++◌, All, length, length-append,
  length-drop, length-replicate, drop, replicate, codes, strcmp_equal, strcmp_equal_iff, returned,
}
use spsc.Hash.{md5_digest_length, big_enough, to_dec}
use spsc.Hash.Print.{hex, length-hex, to_dec_lem}
use spsc.Hash.Zeros.{to_bin_zeros}
use spsc.Hash.Intact.{c_string-hex, readable_hash_lem, does_string_intact_lem}
use spsc.Hash.Programs.{test1, test2, test3, program}

module _ (md5 : List ℕ → List ℕ) (md5-length : (s : List ℕ) → length (md5 s) ≡ md5_digest_length)
    (md5-bytes : (s : List ℕ) → All (λ byte. byte < 256) (md5 s)) (print_int : ℕ → List ℕ) where
  test1_lem : (b1 : List ℕ) → length b1 ≡ 1024 → test1 md5 print_int b1 ≡ returned (0, [])
  unfolding test1
  test1_lem b1 size =
      let digest = md5 (codes "funisgun") in
      let zeroed : List ℕ = replicate 1024 0 in
      let whole : length zeroed ≡ 1024 = length-replicate {A = ℕ} 1024 0 in
      let rest = drop (suc (2 * length digest)) zeroed in
      let digits : to_dec digest zeroed 1024 ≡ returned (hex digest ++ 0 ∷ rest) =
        to_dec_lem digest zeroed 1024 (md5-bytes (codes "funisgun")) (omega (arith, whole))
          (omega (arith, md5-length (codes "funisgun"))) in
      let long : 2 * 512 ≤ length (hex digest ++ 0 ∷ rest) = omega (
        arith,
        length-append (hex digest) (0 ∷ rest),
        length-hex digest,
        length-drop (suc (2 * length digest)) zeroed,
        whole,
        md5-length (codes "funisgun"),
      ) in
      let zeros =
        to_bin_zeros 512 (hex digest ++ 0 ∷ rest) b1 1024 long (omega (arith, size))
          (omega arith) in
      rw (digits, zeros) refl

  test2_lem :
      (sd : List ℕ)
      → length sd ≡ big_enough
      → test2 md5 print_int sd
        ≡ returned (0, codes "intact value is " ++ (print_int 1 ++ codes "\n"))
  unfolding test2
  test2_lem sd size =
      let digest = md5 (codes "funisgun") in
      let zeroed : List ℕ = replicate 1024 0 in
      let whole : length zeroed ≡ 1024 = length-replicate {A = ℕ} 1024 0 in
      let rest = drop (suc (2 * length digest)) zeroed in
      let same : strcmp_equal (hex digest) (hex digest) ≡ true =
        (strcmp_equal_iff (hex digest) (hex digest)).1 refl in
      rw
        (
          readable_hash_lem md5 md5-length md5-bytes (codes "funisgun") zeroed 1024
              (omega (arith, whole)) (omega arith),
          c_string-hex digest rest,
          does_string_intact_lem md5 md5-length md5-bytes (codes "funisgun") sd (hex digest) size,
          same,
        )
        refl

  test3_lem : test3 md5 print_int ≡ returned (0, codes "hash is " ++ (hex (md5 []) ++ codes "\n"))
  unfolding test3
  test3_lem =
      let zeroed : List ℕ = replicate 1024 0 in
      let whole : length zeroed ≡ 1024 = length-replicate {A = ℕ} 1024 0 in
      rw
        (
          readable_hash_lem md5 md5-length md5-bytes [] zeroed 1024 (omega (arith, whole))
              (omega arith),
          c_string-hex (md5 []) (drop (suc (2 * length (md5 []))) zeroed),
        )
        refl

  -- For an MD5 with digests of 16 bytes, and local arrays of 1,024 characters: no assertion of the test
  -- programs fails and no write leaves its array, and they print that the text is intact, and the hash of
  -- the empty text.
  pub program_passes :
      (b1 sd : List ℕ)
      → length b1 ≡ 1024
      → length sd ≡ big_enough
      → program md5 print_int b1 sd
        ≡ returned (
            (codes "intact value is " ++ (print_int 1 ++ codes "\n"))
            ++ (codes "hash is " ++ (hex (md5 []) ++ codes "\n")))
  unfolding program
  program_passes b1 sd h h' = rw (test1_lem b1 h, test2_lem sd h', test3_lem) refl
