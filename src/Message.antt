-- ===== src/Message.antt =====
-- The texts that jane.c sends and thor.c takes apart: the number of buffers, the offset of the
-- first, the bytes in use, and the readable digest, with commas between. The C library's `atoi` is an
-- argument, and so is what `%d` prints. A C string is the list of its characters before the zero.
pub mod Parse
mod Tests
use spsc.Prelude.{
  ℕ, suc, Bool, true, false, not, Option, none, some, List, [], ◌∷◌, ◌++◌, ltb, ◌==◌, if◌then◌else◌,
  length, is_empty, ℤ, pos, ltb_ℤ, Run, returned, assertion_failed, undefined, check, ◌>>=◌, ◌>>◌,
}

abbrev pub comma : ℕ
comma = 44

-- the length of the array `nums`
abbrev pub nums_size : ℕ
nums_size = 24

-- The text of `client_socket_send` between its markers.
unfoldable pub payload : (ℕ → List ℕ) → ℕ → ℕ → ℕ → List ℕ → List ℕ
payload print_int num offset dlen data_to_send =
    print_int num
    ++ (comma ∷ (print_int offset ++ (comma ∷ (print_int dlen ++ (comma ∷ data_to_send)))))

-- `strstr(t, ",")`: what stands before the first comma, and what stands behind it
unfoldable pub at_comma : List ℕ → Option (List ℕ × List ℕ)
at_comma [] = none
at_comma (c ∷ t) =
    let rest : Option (List ℕ × List ℕ) = elim (at_comma t) [
      | none ↦ none
      | some r ↦ some (c ∷ r.0, r.1)
    ] in
    if c == comma then some ([], t) else rest

-- The loop that copies a number into `nums`, with its zero. Without a comma it runs on past the
-- text.
unfoldable pub copied : Option (List ℕ × List ℕ) → Run (List ℕ × List ℕ)
copied none = undefined
copied (some r) = if ltb (length (r.0)) nums_size then returned r else undefined

unfoldable pub read_field : List ℕ → Run (List ℕ × List ℕ)
read_field t = copied (at_comma t)

abbrev pub has_comma : Option (List ℕ × List ℕ) → Bool
has_comma none = false
has_comma (some r) = true

-- what `parse_data` stores through its pointers
pub record Parsed : Type 0 where
  pub num : ℤ
  pub offset : ℤ
  pub len : ℤ
  pub md5 : List ℕ

-- The array `md5` is as long as the longest text.
unfoldable pub parse_data : (List ℕ → ℤ) → List ℕ → Run Parsed
parse_data atoi input = do
  check (has_comma (at_comma input))
  first ← read_field input
  let num = atoi (first.0)
  check (ltb_ℤ (pos 0) num)
  second ← read_field (first.1)
  let offset = atoi (second.0)
  check (ltb_ℤ (pos 0) offset)
  third ← read_field (second.1)
  let len = atoi (third.0)
  check (not (ltb_ℤ len (pos 0)))
  check (not (is_empty (third.1)))
  returned (record { num = num; offset = offset; len = len; md5 = third.1 })
