-- ===== src/Hash/Intact.antt =====
-- util.c: a piece is found intact exactly if its digest is the one that was sent.
use spsc.Prelude.{
  returned-injective, ℕ, suc, ◌+◌, ◌-◌, ◌*◌, ◌/◌, ◌%◌, ◌<◌, ◌≤◌, ◌≡◌, ◌↔◌, refl, ap, sym, ◌∙◌,
  arith, List, [], ◌∷◌, ◌++◌, true, false, ◌==◌, All, length, drop, returned, ◌>>=◌, c_string,
  strcmp_equal, strcmp_equal_iff,
}
use mathlib.Core.Path.{ap₂}
use spsc.Hash.{table, nibbles, readable_hash, does_string_intact, md5_digest_length, big_enough}
use spsc.Hash.Digits.{nibbles-table, table-nonzero}
use spsc.Hash.Print.{hex, to_dec_lem}

pub c_string-hex : (b rest : List ℕ) → c_string (hex b ++ 0 ∷ rest) ≡ hex b
unfolding c_string
c_string-hex [] rest = refl
c_string-hex (byte ∷ b) rest =
    let t : (table (byte / 16) == 0) ≡ false =
      (let n = table-nonzero (byte / 16) in ground arith) in
    let u : (table (byte % 16) == 0) ≡ false =
      (let n = table-nonzero (byte % 16) in ground arith) in
    rw (t, u, c_string-hex b rest) refl

-- the low digit and the high one give the byte back
abbrev bytes-hex : List ℕ → List ℕ
bytes-hex [] = []
bytes-hex (h ∷ []) = []
bytes-hex (h ∷ l ∷ rest) = (nibbles h * 16 + nibbles l) ∷ bytes-hex rest

bytes-hex_lem : (b : List ℕ) → All (λ byte. byte < 256) b → bytes-hex (hex b) ≡ b
bytes-hex_lem [] h = refl
bytes-hex_lem (byte ∷ b) h =
    let hi = nibbles-table (byte / 16) (omega (arith, h.0)) in
    let lo = nibbles-table (byte % 16) (omega arith) in
    ap₂ (◌∷◌) (rw (hi, lo) (omega arith)) (bytes-hex_lem b (h.1))

-- digests with one readable form are one
pub hex_injective :
    (a b : List ℕ) → All (λ byte. byte < 256) a → All (λ byte. byte < 256) b → hex a ≡ hex b → a ≡ b
hex_injective a b ha hb e = sym (bytes-hex_lem a ha) ∙ ap bytes-hex e ∙ bytes-hex_lem b hb

module _ (md5 : List ℕ → List ℕ) (md5-length : (s : List ℕ) → length (md5 s) ≡ md5_digest_length)
    (md5-bytes : (s : List ℕ) → All (λ byte. byte < 256) (md5 s)) where
  pub readable_hash_lem :
      (s d : List ℕ) (dlen : ℕ)
      → dlen ≤ length d
      → 32 < dlen
      → readable_hash md5 s d dlen ≡ returned (hex (md5 s) ++ 0 ∷ drop (suc (2 * length (md5 s))) d)
  unfolding readable_hash
  readable_hash_lem s d dlen le room =
      to_dec_lem (md5 s) d dlen (md5-bytes s) le (omega (arith, md5-length s, room))

  pub does_string_intact_lem :
      (s sd d : List ℕ)
      → length sd ≡ big_enough
      → does_string_intact md5 sd s d ≡ returned (strcmp_equal (hex (md5 s)) d)
  unfolding does_string_intact
  does_string_intact_lem s sd d size =
      rw
        (
          readable_hash_lem s sd (big_enough - 1) (omega (arith, size)) (omega arith),
          c_string-hex (md5 s) (drop (suc (2 * length (md5 s))) sd),
        )
        refl

  -- Where `t` has its readable hash in an array of 33 characters or more, a piece `s` passes the
  -- check against that hash exactly if it has the digest of `t`.
  pub does_string_intact_iff :
      (s t d sd : List ℕ)
      → 32 < length d
      → length sd ≡ big_enough
      → (((readable_hash md5 t d (length d) >>= λ d'. does_string_intact md5 sd s (c_string d'))
            ≡ returned true)
          ↔ (md5 s ≡ md5 t))
  does_string_intact_iff s t d sd room size =
      let eq = strcmp_equal_iff (hex (md5 s)) (hex (md5 t)) in
      let run : (readable_hash md5 t d (length d) >>= λ d'.
      does_string_intact md5 sd s (c_string d'))
          ≡ returned (strcmp_equal (hex (md5 s)) (hex (md5 t))) =
        rw
          (
            readable_hash_lem t d (length d) (omega arith) room,
            c_string-hex (md5 t) (drop (suc (2 * length (md5 t))) d),
          )
          (does_string_intact_lem s sd (hex (md5 t)) size) in
      (
        (λ h.
            hex_injective (md5 s) (md5 t) (md5-bytes s) (md5-bytes t)
              (eq.0 (returned-injective (sym run ∙ h)))),
        (λ e. run ∙ ap returned (eq.1 (ap hex e))),
      )
