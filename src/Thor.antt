-- ===== src/Thor.antt =====
-- thor.c: the consumer.
pub mod Start
pub mod Replies
pub mod Loop
pub mod Ends
mod Tests
use spsc.Prelude.{
  ℕ, ◌+◌, ◌-◌, ◌*◌, Bool, true, false, not, Option, none, some, List, [], ◌∷◌, ◌++◌, if◌then◌else◌,
  ltb, length, take, ℤ, pos, negsuc, Run, returned, undefined, check, ◌>>=◌, ◌>>◌,
}
use spsc.Outside.{Outside}
use spsc.Segment.{load}
use spsc.Asgard.{Asgard, get_buffer}
use spsc.Hash.{does_string_intact, big_enough}
use spsc.Substring.{Sstring, sstring_compute}
use spsc.Message.{Parsed, parse_data}
use spsc.Frame.{start_marker, end_marker, server_socket_rcv}

-- the globals; `substring_context` is there exactly when `do_search` is set
pub record Thor : Type 0 where
  pub asgard : Asgard
  pub output_file_str : Option (List ℕ)
  pub output_open : Bool
  pub output_file : List ℕ
  pub substring_context : Option Sstring

-- The file is opened for appending at the first call.
unfoldable pub server_flush_transaction : Outside → List ℕ → Thor → Run Thor
server_flush_transaction o bytes thor = do
  check (if thor.output_open then true else o.fopen_output thor.output_file_str)
  returned (record thor { output_open = true; output_file = thor.output_file ++ bytes })

unfoldable pub server_truncate_output_file : Thor → Thor
server_truncate_output_file thor =
    if thor.output_open then record thor { output_open = false; output_file = [] } else thor

-- What the system calls of `server_socket_init` give; `setsockopt` may fail without consequence.
unfoldable pub server_socket_init : Bool → Bool → Bool → ℕ
server_socket_init has_socket is_bound listens =
    if not has_socket then 1 else if not is_bound then 1 else if not listens then 1 else 0

unfoldable pub server_accept : Bool → ℕ
server_accept has_socket = if has_socket then 0 else 1

-- It has no caller; `snprintf` writes into an array of 1,024 characters.
unfoldable pub pr_data : List ℕ → ℕ → ℕ → Run (Unit {0})
pr_data m num len =
    let written = if ltb (length m) len then length m + 1 else len in
    if ltb 1024 written then undefined else returned tt

-- "--------->loki has changed message.<------"
abbrev pub loki_warning : List ℕ
loki_warning =
    45 ∷ 45 ∷ 45 ∷ 45 ∷ 45 ∷ 45 ∷ 45 ∷ 45 ∷ 45 ∷ 62 ∷ 108 ∷ 111 ∷ 107 ∷ 105 ∷ 32 ∷ 104 ∷ 97 ∷ 115
    ∷ 32 ∷ 99 ∷ 104 ∷ 97 ∷ 110 ∷ 103 ∷ 101 ∷ 100 ∷ 32 ∷ 109 ∷ 101 ∷ 115 ∷ 115 ∷ 97 ∷ 103 ∷ 101 ∷ 46
    ∷ 60 ∷ 45 ∷ 45 ∷ 45 ∷ 45 ∷ 45 ∷ 45 ∷ []

-- What `send` is given: `snprintf` writes at most 1,023 characters and a zero, and its result is the
-- length of the whole.
unfoldable pub printed : List ℕ → Run (List ℕ)
printed text =
    if ltb big_enough (length text)
    then undefined
    else returned (take (length text) (take (big_enough - 1) text ++ 0 ∷ []))

unfoldable pub searched : List ℕ → Option Sstring → Run (Option Sstring)
searched bytes none = returned none
searched bytes (some context) = sstring_compute context bytes >>= λ ss. returned (some ss)

-- an `int` as an index
unfoldable pub index : ℤ → Run ℕ
index (pos n) = returned n
index (negsuc n) = undefined

-- the branch of a digest that is right: the bytes are read for the output, and once more for the
-- search
unfoldable pub accept : Outside → List ℕ → List ℕ → List ℕ → Thor → Run (List ℕ × Thor)
accept o data_to_send bytes bytes' thor = do
  answer ← printed (start_marker ++ (data_to_send ++ end_marker))
  thor' ← server_flush_transaction o bytes thor
  context ← searched bytes' thor'.substring_context
  returned (answer, record thor' { substring_context = context })

-- the other branch
unfoldable pub refuse : Thor → Run (List ℕ × Thor)
refuse thor = do
  answer ← printed (start_marker ++ (loki_warning ++ end_marker))
  returned (answer, thor)

-- The answer to a text, the `n`-th of all, and the state afterwards. The check reads the segment,
-- the output reads it `later`, and the search reads it `last`.
unfoldable pub server_socket_send :
    Outside → ℕ → List ℕ → Thor → List ℕ → List ℕ → List ℕ → Run (List ℕ × Thor)
server_socket_send o n data_to_send thor segment later last = do
  parsed ← parse_data o.atoi data_to_send
  offset ← index parsed.offset
  len ← index parsed.len
  let at = get_buffer thor.asgard offset - thor.asgard.data_ptr
  bytes ← load at len segment
  bytes' ← load at len later
  bytes'' ← load at len last
  intact ← does_string_intact o.md5 (o.sd n) bytes parsed.md5
  if intact then accept o data_to_send bytes' bytes'' thor else refuse thor

unfoldable pub answered :
    Outside → ℕ → Thor → List ℕ → List ℕ → List ℕ → Option (List ℕ) → Run (Option (List ℕ) × Thor)
answered o n thor segment later last none = returned (none, thor)
answered o n thor segment later last (some text) =
    server_socket_send o n text thor segment later last >>= λ sent. returned (some (sent.0), sent.1)

-- One round of the inner loop of `server_loop`: the answer, or none when it goes back to
-- `server_accept`, the state, and the pieces that are left.
unfoldable pub serve :
    Outside
    → ℕ
    → List (List ℕ)
    → Thor
    → List ℕ
    → List ℕ
    → List ℕ
    → Run (Option (List ℕ) × Thor × List (List ℕ))
serve o n pieces thor segment later last = do
  (text, rest) ← server_socket_rcv pieces
  (answer, thor') ← answered o n thor segment later last text
  returned (answer, thor', rest)
