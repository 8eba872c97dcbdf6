-- ===== src/Frame.antt =====
-- The frames of jane.c and thor.c: a text between two markers, which `client_socket_rcv` and
-- `server_socket_rcv` gather from the pieces that `recv` gives. An empty piece stands for a `recv`
-- that fails, and the end of the pieces for a connection that is closed.
pub mod Strstr
pub mod Receive
pub mod Pieces
mod Tests
use spsc.Prelude.{
  ℕ, suc, ◌+◌, ◌-◌, Bool, true, false, Option, none, some, List, [], ◌∷◌, ◌++◌, ◌==◌, ◌&&◌,
  if◌then◌else◌, length, is_empty, set, take, drop, c_string, Run, returned, undefined,
}

-- "<CEEEFACE>"
abbrev pub start_marker : List ℕ
start_marker = 60 ∷ 67 ∷ 69 ∷ 69 ∷ 69 ∷ 70 ∷ 65 ∷ 67 ∷ 69 ∷ 62 ∷ []

-- "<CEEEFACE><ACK>"
abbrev pub start_with_ack_marker : List ℕ
start_with_ack_marker =
    60 ∷ 67 ∷ 69 ∷ 69 ∷ 69 ∷ 70 ∷ 65 ∷ 67 ∷ 69 ∷ 62 ∷ 60 ∷ 65 ∷ 67 ∷ 75 ∷ 62 ∷ []

-- "<DEADBEEF>"
abbrev pub end_marker : List ℕ
end_marker = 60 ∷ 68 ∷ 69 ∷ 65 ∷ 68 ∷ 66 ∷ 69 ∷ 69 ∷ 70 ∷ 62 ∷ []

-- "+DONE+"
abbrev pub done_trans : List ℕ
done_trans = 43 ∷ 68 ∷ 79 ∷ 78 ∷ 69 ∷ 43 ∷ []

-- the length of the buffer that a text is gathered in
abbrev pub buffer_size : ℕ
buffer_size = 1024

abbrev pub frame : List ℕ → List ℕ
frame text = start_marker ++ (text ++ end_marker)

unfoldable pub starts_with : List ℕ → List ℕ → Bool
starts_with [] s = true
starts_with (m ∷ marker) [] = false
starts_with (m ∷ marker) (c ∷ s) = (m == c) && starts_with marker s

abbrev pub after_one : Option ℕ → Option ℕ
after_one none = none
after_one (some i) = some (suc i)

-- `strstr(s, marker)` as the index of the first occurrence
unfoldable pub strstr : List ℕ → List ℕ → Option ℕ
strstr marker [] = if starts_with marker [] then some 0 else none
strstr marker (c ∷ s) =
    let later = after_one (strstr marker s) in if starts_with marker (c ∷ s) then some 0 else later

-- From the places of the two markers in the string `s`, the text: the end marker's first character
-- becomes a zero, and what stands behind the start marker is copied to the front.
abbrev pub between : List ℕ → Option ℕ → Option ℕ → Option (List ℕ)
between s none end = none
between s (some start) none = none
between s (some start) (some end) =
    some (c_string (drop (start + length start_marker) (set s end 0)))

unfoldable pub unframed : List ℕ → Option (List ℕ)
unframed s = between s (strstr start_marker s) (strstr end_marker s)

-- the pieces that are left when `room` bytes of the first have been taken
unfoldable pub behind : ℕ → List ℕ → List (List ℕ) → List (List ℕ)
behind room piece pieces = if is_empty (drop room piece) then pieces else drop room piece ∷ pieces

-- the end of a round: the text, or what the loop goes on to give
abbrev pub answered :
    Run (Option (List ℕ) × List (List ℕ))
    → List (List ℕ)
    → Option (List ℕ)
    → Run (Option (List ℕ) × List (List ℕ))
answered more rest none = more
answered more rest (some text) = returned (some text, rest)

-- The loop of the two functions, with what is gathered: the text, or none for the result 1, and the
-- pieces that are left. `stops` is the test that comes before those of the markers. A search in a full
-- buffer without a zero runs past it. When a piece fills the buffer, the next `recv` is asked for
-- nothing and gives 0.
unfoldable pub receive :
    (List ℕ → Bool) → List (List ℕ) → List ℕ → Run (Option (List ℕ) × List (List ℕ))
receive stops [] gathered = returned (none, [])
receive stops (piece ∷ pieces) gathered =
    let room = buffer_size - length gathered in
    let gathered' = gathered ++ take room piece in
    let s = c_string gathered' in
    let rest = behind room piece pieces in
    let next = receive stops pieces gathered' in
    let more = if is_empty (drop room piece) then next else returned (none, rest) in
    if is_empty (take room piece)
    then returned (none, rest)
    else if length s == buffer_size
    then undefined
    else if stops s
    then returned (none, rest)
    else answered more rest (unframed s)

unfoldable pub client_socket_rcv : List (List ℕ) → Run (Option (List ℕ) × List (List ℕ))
client_socket_rcv pieces = receive (λ s. false) pieces []

abbrev pub is_found : Option ℕ → Bool
is_found none = false
is_found (some i) = true

-- `NULL != strstr(s, DONE_TRANS)`
unfoldable pub is_done : List ℕ → Bool
is_done s = is_found (strstr done_trans s)

unfoldable pub server_socket_rcv : List (List ℕ) → Run (Option (List ℕ) × List (List ℕ))
server_socket_rcv pieces = receive is_done pieces []
