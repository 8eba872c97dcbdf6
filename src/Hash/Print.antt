-- ===== src/Hash/Print.antt =====
-- util.c: what `toDec` writes.
use spsc.Prelude.{
  ℕ, suc, ◌+◌, ◌*◌, ◌/◌, ◌%◌, ◌<◌, ◌≤◌, ◌≡◌, refl, ap, sym, ◌∙◌, arith, List, [], ◌∷◌, ◌++◌,
  append_assoc, true, false, ltb, lt→ltb, All, length, set, drop, set-append, length-append,
  length-set, returned, undefined,
}
use spsc.Hash.{table, write, to_dec_from, to_dec}

-- the digits of each byte, the high one first
abbrev pub hex : List ℕ → List ℕ
hex [] = []
hex (byte ∷ b) = table (byte / 16) ∷ table (byte % 16) ∷ hex b

ge→ltb : (a b : ℕ) → b ≤ a → ltb a b ≡ false
ge→ltb a b h = ground arith

write-append :
    (xs ys : List ℕ) (y j v : ℕ)
    → j ≡ length xs
    → write (xs ++ y ∷ ys) j v ≡ returned (xs ++ v ∷ ys)
unfolding write
write-append xs ys y j v e =
    let h : j < length (xs ++ y ∷ ys) = omega (arith, length-append xs (y ∷ ys), e) in
    rw (lt→ltb j (length (xs ++ y ∷ ys)) h, set-append xs ys y j v e) refl

pub length-hex : (b : List ℕ) → length (hex b) ≡ 2 * length b
length-hex [] = refl
length-hex (byte ∷ b) = omega (arith, length-hex b)

-- the loop, when `ws` is written, and the array has room for the rest
to_dec_from_lem :
    (b ws free : List ℕ) (j rlen : ℕ)
    → All (λ byte. byte < 256) b
    → j ≡ length ws
    → 2 * length b < length free
    → j + 2 * length b < rlen
    → to_dec_from b j (ws ++ free) rlen
      ≡ returned (ws ++ (hex b ++ 0 ∷ drop (suc (2 * length b)) free))
unfolding to_dec_from
to_dec_from_lem [] ws [] j rlen bs e room more = absurd (omega arith)
to_dec_from_lem [] ws (y ∷ free) j rlen bs e room more =
    rw (write-append ws free y j 0 e, lt→ltb j rlen (omega (arith, more))) refl
to_dec_from_lem (byte ∷ b) ws [] j rlen bs e room more = absurd (omega arith)
to_dec_from_lem (byte ∷ b) ws (y ∷ []) j rlen bs e room more = absurd (omega arith)
to_dec_from_lem (byte ∷ b) ws (y ∷ z ∷ free) j rlen bs e room more =
    let high = table (byte / 16 % 16) in
    let low = table (byte % 16) in
    let ws' = ws ++ high ∷ low ∷ [] in
    let two : 2 * suc (length b) ≡ suc (suc (2 * length b)) = omega arith in
    let nibble : byte / 16 % 16 ≡ byte / 16 = omega (arith, bs.0) in
    let one_more : length (ws ++ high ∷ []) ≡ j + 1 =
      omega (arith, e, length-append ws (high ∷ [])) in
    let first : ws ++ high ∷ z ∷ free ≡ (ws ++ high ∷ []) ++ z ∷ free =
      sym (append_assoc ws (high ∷ []) (z ∷ free)) in
    let both : (ws ++ high ∷ []) ++ low ∷ free ≡ ws' ++ free =
      append_assoc ws (high ∷ []) (low ∷ free) ∙ sym (append_assoc ws (high ∷ low ∷ []) free) in
    let rest =
      to_dec_from_lem b ws' free (j + 2) rlen (bs.1)
        (omega (arith, e, length-append ws (high ∷ low ∷ []))) (omega (arith, room))
        (omega (arith, more)) in
    rw
      (
        lt→ltb j rlen (omega (arith, more)),
        write-append ws (z ∷ free) y j high e,
        lt→ltb (j + 1) rlen (omega (arith, more)),
        first,
        write-append (ws ++ high ∷ []) free z (j + 1) low (sym one_more),
        both,
      )
      (rest
        ∙ ap returned
            (append_assoc ws (high ∷ low ∷ []) (hex b ++ 0 ∷ drop (suc (2 * length b)) free))
        ∙ ap (λ n. returned (ws ++ table n ∷ low ∷ (hex b ++ 0 ∷ drop (suc (2 * length b)) free)))
            nibble
        ∙ ap (λ n. returned (ws ++ table (byte / 16) ∷ low ∷ (hex b ++ 0 ∷ drop n (z ∷ free))))
            (sym two))

-- Bytes `b` printed into an array `r` that has at least the given length, which is above twice the
-- number of bytes: their digits, a zero, and the rest of the array as it was.
pub to_dec_lem :
    (b r : List ℕ) (rlen : ℕ)
    → All (λ byte. byte < 256) b
    → rlen ≤ length r
    → 2 * length b < rlen
    → to_dec b r rlen ≡ returned (hex b ++ 0 ∷ drop (suc (2 * length b)) r)
unfolding to_dec
to_dec_lem b r rlen bs room more =
    to_dec_from_lem b [] r 0 rlen bs refl (omega (arith, room, more)) (omega (arith, more))

to_dec_from_overrun :
    (b r : List ℕ) (j rlen : ℕ)
    → length r ≡ rlen
    → j + 2 * length b ≡ rlen
    → to_dec_from b j r rlen ≡ undefined
unfolding to_dec_from write
to_dec_from_overrun [] r j rlen e full =
    let past : ltb j (length r) ≡ false = ge→ltb j (length r) (omega (arith, e, full)) in
    rw past refl
to_dec_from_overrun (byte ∷ b) r j rlen e full =
    let high = table (byte / 16 % 16) in
    let low = table (byte % 16) in
    let in_high : ltb j (length r) ≡ true = lt→ltb j (length r) (omega (arith, e, full)) in
    let size : length (set r j high) ≡ length r = length-set r j high in
    let in_low : ltb (j + 1) (length (set r j high)) ≡ true =
      lt→ltb (j + 1) (length (set r j high)) (omega (arith, size, e, full)) in
    rw
      (
        lt→ltb j rlen (omega (arith, full)),
        in_high,
        lt→ltb (j + 1) rlen (omega (arith, full)),
        in_low,
      )
      (to_dec_from_overrun b (set (set r j high) (j + 1) low) (j + 2) rlen
        (length-set (set r j high) (j + 1) low ∙ size ∙ e) (omega (arith, full)))

-- An array with room for the digits alone: `toDec` writes the zero past its end, since the test of
-- the index comes after the write.
to_dec_overrun : (b r : List ℕ) → length r ≡ 2 * length b → to_dec b r (length r) ≡ undefined
unfolding to_dec
to_dec_overrun b r h = to_dec_from_overrun b r 0 (length r) refl (omega (arith, h))
