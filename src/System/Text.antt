-- ===== src/System/Text.antt =====
-- The text of a message: it passes the framing, and it is not its own digest.
use spsc.Prelude.{
  ℕ, ◌+◌, ◌/◌, ◌%◌, ◌^◌, ◌≤◌, ◌<◌, ◌≡◌, ◌≢◌, ap, arith, false, List, [], ◌∷◌, ◌++◌, All, All-append,
  All-map, length, length-append, strcmp_equal, strcmp_equal_iff, Bool-cases, inl, inr,
}
use spsc.Outside.{Outside, Documented}
use spsc.Hash.{table}
use spsc.Hash.Print.{hex, length-hex}
use spsc.Message.{payload, comma}
use spsc.Frame.Receive.{IsPlain, IsFramed, plain-IsFramed}

IsPlain-table : (n : ℕ) → IsPlain (table n)
unfolding table
IsPlain-table n = (ground arith, ground arith)

IsPlain-hex : (b : List ℕ) → All IsPlain (hex b)
IsPlain-hex [] = tt
IsPlain-hex (byte ∷ b) = (IsPlain-table (byte / 16), (IsPlain-table (byte % 16), IsPlain-hex b))

module _ (o : Outside) (members : ℕ) (doc : Documented o members) where
  IsPlain-digits : (n : ℕ) → All IsPlain (o.print_int n)
  IsPlain-digits n =
      All-map (λ c. (45 ≤ c) × (c ≤ 57)) IsPlain (o.print_int n)
        (λ c h. (omega (arith, h.0), λ e. (let f : ⊥ = omega (arith, h.1, e) in f))) (doc.digits n)

  pub no_comma : (n : ℕ) → All (λ c. c ≢ comma) (o.print_int n)
  no_comma n =
      All-map (λ c. (45 ≤ c) × (c ≤ 57)) (λ c. c ≢ comma) (o.print_int n)
        (λ c h e. (let f : ⊥ = omega (arith, h.0, e) in f)) (doc.digits n)

  -- the text about `chunk`, with its place and its length
  abbrev pub text : ℕ → List ℕ → List ℕ
  text offset chunk = payload o.print_int 1 offset (length chunk) (hex (o.md5 chunk))

  IsPlain-text : (offset : ℕ) (chunk : List ℕ) → All IsPlain (text offset chunk)
  unfolding payload
  IsPlain-text offset chunk =
      let separator : IsPlain comma = (omega arith, λ e. (let f : ⊥ = omega (arith, e) in f)) in
      let last = IsPlain-hex (o.md5 chunk) in
      let third =
        All-append IsPlain (o.print_int (length chunk)) (comma ∷ hex (o.md5 chunk))
          (IsPlain-digits (length chunk)) (separator, last) in
      let second =
        All-append IsPlain (o.print_int offset)
          (comma ∷ (o.print_int (length chunk) ++ comma ∷ hex (o.md5 chunk)))
          (IsPlain-digits offset) (separator, third) in
      All-append IsPlain (o.print_int 1)
        (comma
          ∷ (o.print_int offset
              ++ (comma ∷ (o.print_int (length chunk) ++ comma ∷ hex (o.md5 chunk)))))
        (IsPlain-digits 1) (separator, second)

  pub text-IsFramed : (offset : ℕ) (chunk : List ℕ) → IsFramed (text offset chunk)
  text-IsFramed offset chunk = plain-IsFramed (text offset chunk) (IsPlain-text offset chunk)

  pub length-text :
      (offset : ℕ) (chunk : List ℕ)
      → offset < 2 ^ 31
      → length chunk < 2 ^ 31
      → (32 < length (text offset chunk)) × (length (text offset chunk) < 200)
  unfolding payload
  length-text offset chunk h h' =
      let third = comma ∷ hex (o.md5 chunk) in
      let second = comma ∷ (o.print_int (length chunk) ++ third) in
      let first = comma ∷ (o.print_int offset ++ second) in
      let sizes : length (o.print_int 1 ++ first)
          ≡ length (o.print_int 1)
            + length (o.print_int offset)
            + length (o.print_int (length chunk))
            + 35 =
        omega (
          arith,
          length-append (o.print_int 1) first,
          length-append (o.print_int offset) second,
          length-append (o.print_int (length chunk)) third,
          length-hex (o.md5 chunk),
          doc.md5-length chunk,
        ) in
      (
        omega (arith, sizes),
        omega (
          arith,
          sizes,
          doc.short 1 (omega arith),
          doc.short offset h,
          doc.short (length chunk) h',
        ),
      )

  -- the answer that repeats the text is not the digest that the producer compares it with
  pub text-ne_digest :
      (offset : ℕ) (chunk : List ℕ)
      → offset < 2 ^ 31
      → length chunk < 2 ^ 31
      → strcmp_equal (text offset chunk) (hex (o.md5 chunk)) ≡ false
  text-ne_digest offset chunk h h' =
      elim (Bool-cases (strcmp_equal (text offset chunk) (hex (o.md5 chunk)))) [
        | inr e ↦ e
        | inl e ↦ absurd (
            omega (
              arith,
              ap length ((strcmp_equal_iff (text offset chunk) (hex (o.md5 chunk))).0 e),
              length-hex (o.md5 chunk),
              doc.md5-length chunk,
              (length-text offset chunk h h').0,
            ))
      ]
