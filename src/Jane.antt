-- ===== src/Jane.antt =====
-- jane.c without `threaded`: the producer. An address is a number, and the segment's bytes stand
-- beside the state, since the consumer shares them.
pub mod Start
use spsc.Prelude.{
  ℕ, ◌+◌, ◌-◌, ◌*◌, ◌%◌, ◌^◌, Bool, true, false, not, Option, none, some, List, [], ◌∷◌, ◌++◌,
  if◌then◌else◌, length, is_empty, take, drop, c_string, strcmp_equal, Run, returned, undefined,
  given, check, ◌>>=◌, ◌>>◌,
}
use spsc.Outside.{Outside}
use spsc.Segment.{store, load}
use spsc.Asgard.{Asgard, shm_alloc, shm_dealloc, get_offset}
use spsc.Hash.{readable_hash, big_enough}
use spsc.Message.{payload}
use spsc.Frame.{start_marker, start_with_ack_marker, end_marker}

-- the globals, and the locals of `client_loop` that outlive a round; `input_file_ptr` is what is
-- left to read
pub record Jane : Type 0 where
  pub asgard : Asgard
  pub doack : Bool
  pub input_file : Option (List ℕ)
  pub input_file_ptr : Option (List ℕ)
  pub shm_buffer : Option ℕ
  pub md5 : List ℕ
  pub failed : Bool
  pub llen : ℕ

-- the previous value, and the state afterwards
unfoldable pub set_ack : Bool → Jane → Bool × Jane
set_ack value jane = (jane.doack, record jane { doack = value })

unfoldable pub is_ack : Jane → Bool
is_ack jane = jane.doack

unfoldable pub set_input_file : Option (List ℕ) → Jane → Run Jane
set_input_file ip_file jane = do
  name ← given ip_file
  returned (record jane { input_file = some name })

-- the number of bytes that `fread` is asked for, an `int` turned into a `size_t`
unfoldable pub read_count : ℕ → ℕ
read_count use_buffers = (use_buffers * big_enough + 2 ^ 64 - 1) % 2 ^ 64

unfoldable pub opened : Outside → List ℕ → Option (List ℕ) → Run (List ℕ)
opened o name none = given (o.fopen name)
opened o name (some unread) = returned unread

-- Whether something was read, with the state and the segment afterwards.
unfoldable pub read_input_file : Outside → ℕ → ℕ → Jane → List ℕ → Run (Bool × Jane × List ℕ)
read_input_file o use_buffers buffer jane segment = do
  name ← given jane.input_file
  unread ← opened o name jane.input_file_ptr
  let count = read_count use_buffers
  let chunk = take count unread
  let jane' = record jane { input_file_ptr = some (drop count unread) }
  if is_empty chunk then returned (false, jane', segment) else do
    let at = buffer - jane.asgard.data_ptr
    segment' ← store at chunk segment
    segment'' ← store (at + length chunk) (0 ∷ []) segment'
    returned (true, record jane' { llen = length chunk }, segment'')

-- the same, under another name
unfoldable pub threaded_read_input_file :
    Outside → ℕ → ℕ → Jane → List ℕ → Run (Bool × Jane × List ℕ)
threaded_read_input_file o use_buffers buffer jane segment = do
  name ← given jane.input_file
  unread ← opened o name jane.input_file_ptr
  let count = read_count use_buffers
  let chunk = take count unread
  let jane' = record jane { input_file_ptr = some (drop count unread) }
  if is_empty chunk then returned (false, jane', segment) else do
    let at = buffer - jane.asgard.data_ptr
    segment' ← store at chunk segment
    segment'' ← store (at + length chunk) (0 ∷ []) segment'
    returned (true, record jane' { llen = length chunk }, segment'')

-- What one attempt of `client_socket_init` meets.
pub data Attempt : Type 0 where
  no_socket refused connected : Attempt

-- The result, or none where it is still at it after these attempts.
unfoldable pub client_socket_init : List Attempt → Option ℕ
client_socket_init [] = none
client_socket_init (no_socket ∷ attempts) = some 1
client_socket_init (refused ∷ attempts) = client_socket_init attempts
client_socket_init (connected ∷ attempts) = some 0

-- the text that `client_socket_send` hands to `send`
unfoldable pub client_message : Outside → ℕ → ℕ → List ℕ → ℕ → Bool → List ℕ
client_message o num offset data_to_send dlen ack =
    (if ack then start_with_ack_marker else start_marker)
    ++ (payload o.print_int num offset dlen data_to_send ++ end_marker)

-- the buffer of the round before, given back
unfoldable pub take_back : List ℕ → ℕ → Option ℕ → Asgard → Run Asgard
take_back stack use_buffers none asgard = returned asgard
take_back stack use_buffers (some shm_buffer) asgard =
    shm_dealloc stack use_buffers shm_buffer asgard

-- A round of `client_loop`, the `n`-th of all, up to the allocation: the buffer's address, and the
-- state.
unfoldable pub acquire : Outside → ℕ → ℕ → Jane → Run (ℕ × Jane)
acquire o n use_buffers jane = do
  free ← take_back (o.stack (2 * n)) use_buffers jane.shm_buffer jane.asgard
  (buffer, asgard) ← shm_alloc (o.stack (2 * n + 1)) use_buffers free
  shm_buffer ← given buffer
  returned (shm_buffer, record jane { asgard = asgard; shm_buffer = some shm_buffer })

-- the branch of a round that reads: whether there was something to read, the state and the segment;
-- `early` is what happens to the segment between the read and the digest
unfoldable pub refill :
    Outside → ℕ → (List ℕ → List ℕ) → ℕ → Jane → List ℕ → Run (Bool × Jane × List ℕ)
refill o use_buffers early shm_buffer jane segment = do
  (finished_reading, jane', segment') ← read_input_file o use_buffers shm_buffer jane segment
  if not finished_reading then returned (false, jane', segment') else do
    let segment'' = early segment'
    text ← load (shm_buffer - jane'.asgard.data_ptr) jane'.llen segment''
    md5 ← readable_hash o.md5 text jane'.md5 (big_enough - 1)
    returned (true, record jane' { md5 = md5 }, segment'')

-- The round up to `client_socket_send`: whether there is something to send, the buffer's address, the
-- state and the segment. After a failure nothing is read.
unfoldable pub prepare :
    Outside → ℕ → ℕ → (List ℕ → List ℕ) → Jane → List ℕ → Run (Bool × ℕ × Jane × List ℕ)
prepare o n use_buffers early jane segment = do
  (shm_buffer, jane') ← acquire o n use_buffers jane
  if jane'.failed then returned (true, shm_buffer, jane', segment) else do
    (more, jane'', segment') ← refill o use_buffers early shm_buffer jane' segment
    returned (more, shm_buffer, jane'', segment')

unfoldable pub message : Outside → ℕ → Jane → List ℕ
message o shm_buffer jane =
    client_message o 1 (get_offset jane.asgard shm_buffer) (c_string jane.md5) jane.llen
      (is_ack jane)

-- the rest of the round, with what `client_socket_rcv` gave, or none for a failure of it or of
-- `client_socket_send`
unfoldable pub on_reply : Option (List ℕ) → Jane → Jane
on_reply none jane = record jane { failed = true }
on_reply (some got) jane =
    if strcmp_equal got (c_string jane.md5) then record jane { failed = false } else jane
