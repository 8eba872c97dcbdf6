-- ===== src/Message/Parse.antt =====
-- What thor.c reads from a text of jane.c, and from one that is none.
use spsc.Prelude.{
  is_empty, ℕ, ◌<◌, ◌^◌, ◌≡◌, ◌≢◌, refl, arith, true, false, none, some, List, [], ◌∷◌, ◌++◌, All,
  lt→ltb, length, ℤ, pos, ◌==◌, ltb_ℤ, returned, assertion_failed,
}
use spsc.Message.{payload, at_comma, copied, read_field, parse_data, comma, is_empty}

at_comma-append :
    (xs t : List ℕ) → All (λ c. c ≢ comma) xs → at_comma (xs ++ comma ∷ t) ≡ some (xs, t)
unfolding at_comma
at_comma-append [] t h = refl
at_comma-append (c ∷ xs) t h =
    let other : (c == comma) ≡ false = (let ne : c ≢ comma = h.0 in ground arith) in
    rw (other, at_comma-append xs t (h.1)) refl

read_field-append :
    (xs t : List ℕ)
    → All (λ c. c ≢ comma) xs
    → length xs < 24
    → read_field (xs ++ comma ∷ t) ≡ returned (xs, t)
unfolding read_field copied
read_field-append xs t h short = rw (at_comma-append xs t h, lt→ltb (length xs) 24 short) refl

at_comma-none : (xs : List ℕ) → All (λ c. c ≢ comma) xs → at_comma xs ≡ none
unfolding at_comma
at_comma-none [] h = refl
at_comma-none (c ∷ xs) h =
    let other : (c == comma) ≡ false = (let ne : c ≢ comma = h.0 in ground arith) in
    rw (other, at_comma-none xs (h.1)) refl

-- A text without a comma fails the first assertion of `parse_data`.
pub parse_data_no_comma :
    (atoi : List ℕ → ℤ) (input : List ℕ)
    → All (λ c. c ≢ comma) input
    → parse_data atoi input ≡ assertion_failed
unfolding parse_data
parse_data_no_comma atoi input h = rw (at_comma-none input h) refl

not_empty : (xs : List ℕ) → 0 < length xs → is_empty xs ≡ false
not_empty [] h = absurd (omega (arith, h))
not_empty (x ∷ xs) h = refl

-- With an `atoi` that reads what `%d` prints, which has no comma and fewer than 24 characters, on
-- numbers below 2^31: `parse_data` reads from a text of the producer the numbers and the digest that
-- it was made of, where the number of buffers and the offset are not 0 and the digest is not empty.
pub parse_data-payload :
    (atoi : List ℕ → ℤ) (print_int : ℕ → List ℕ)
    → ((n : ℕ) → n < 2 ^ 31 → atoi (print_int n) ≡ pos n)
    → ((n : ℕ) → All (λ c. c ≢ comma) (print_int n))
    → ((n : ℕ) → n < 2 ^ 31 → length (print_int n) < 24)
    → (num offset dlen : ℕ) (md5 : List ℕ) → num < 2 ^ 31
    → offset < 2 ^ 31
    → dlen < 2 ^ 31
    → 0 < num
    → 0 < offset
    → 0 < length md5
    → parse_data atoi (payload print_int num offset dlen md5)
      ≡ returned (record { num = pos num; offset = pos offset; len = pos dlen; md5 = md5 })
unfolding parse_data payload
parse_data-payload atoi print_int reads no_comma short num offset dlen md5 bn bo bd hn ho hm =
    let behind_second = print_int dlen ++ (comma ∷ md5) in
    let behind_first = print_int offset ++ (comma ∷ behind_second) in
    let positive : ltb_ℤ (pos 0) (pos num) ≡ true = ground arith in
    let positive' : ltb_ℤ (pos 0) (pos offset) ≡ true = ground arith in
    let no_sign : ltb_ℤ (pos dlen) (pos 0) ≡ false = ground arith in
    let filled : is_empty md5 ≡ false = not_empty md5 hm in
    rw
      (
        at_comma-append (print_int num) behind_first (no_comma num),
        read_field-append (print_int num) behind_first (no_comma num) (short num bn),
        reads num bn,
        read_field-append (print_int offset) behind_second (no_comma offset) (short offset bo),
        reads offset bo,
        read_field-append (print_int dlen) md5 (no_comma dlen) (short dlen bd),
        reads dlen bd,
        filled,
      )
      (rw (positive, positive', no_sign) refl)
