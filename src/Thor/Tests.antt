-- ===== src/Thor/Tests.antt =====
-- Runs of thor.c: a message on three bytes at offset 2 of a segment of eight bytes.
use spsc.Thor.{pr_data}
use spsc.Prelude.{replicate, undefined}
use spsc.Prelude.{
  ℕ, ◌≡◌, refl, arith, none, some, ◌≢◌, true, List, [], ◌∷◌, pos, false, returned, undefined,
  strcmp_equal,
}
use spsc.Examples.{
  print_int, reads, not_comma, length-print_width, stand_in, file, here, here-Documented,
}
use spsc.Hash.{table}
use spsc.Hash.Print.{hex}
use spsc.Message.{parse_data, payload}
use spsc.Message.Parse.{parse_data-payload}
use spsc.Frame.{frame}
use spsc.Thor.{Thor, server_socket_send}
use spsc.Thor.Loop.{server_loop}
use spsc.Thor.Ends.{server_loop-ends}
use spsc.Thor.Replies.{took, Able, server_socket_send_lem}

abbrev text : List ℕ
text = payload print_int 1 2 3 (hex (stand_in file))

text_lem :
    parse_data here.atoi text
    ≡ returned (record { num = pos 1; offset = pos 2; len = pos 3; md5 = hex (stand_in file) })
text_lem =
    parse_data-payload here.atoi print_int reads (not_comma 10)
      (λ n h. omega (arith, length-print_width 10 n)) 1 2 3 (hex (stand_in file)) (omega arith)
      (omega arith) (omega arith) (omega arith) (omega arith) (omega arith)

abbrev thor : Thor
thor = record {
  asgard = record {
    data_ptr = 5000;
    ms = record { sz = 8; pattern = 0; key = 5678; shm = 5000; shmid = 9 };
    buffers = [];
    members = 0;
    free_pool = [];
    busy_pool = [];
  };
  output_file_str = some (111 ∷ []);
  output_open = false;
  output_file = 90 ∷ [];
  substring_context = none;
}

thor-Able : Able here thor
thor-Able = record { opens = refl; searches = tt }

server_socket_send_lem_example :
    server_socket_send here 0 text thor
      (0 ∷ 0 ∷ 65 ∷ 66 ∷ 67 ∷ 0 ∷ [])
      (0 ∷ 0 ∷ 65 ∷ 68 ∷ 67 ∷ 0 ∷ [])
      (0 ∷ 0 ∷ 69 ∷ 68 ∷ 67 ∷ 0 ∷ [])
    ≡ returned (frame text, took (65 ∷ 68 ∷ 67 ∷ []) (69 ∷ 68 ∷ 67 ∷ []) thor)
unfolding strcmp_equal table
server_socket_send_lem_example =
    server_socket_send_lem here 3 here-Documented 0 text thor (0 ∷ 0 ∷ 65 ∷ 66 ∷ 67 ∷ 0 ∷ [])
      (0 ∷ 0 ∷ 65 ∷ 68 ∷ 67 ∷ 0 ∷ []) (0 ∷ 0 ∷ 69 ∷ 68 ∷ 67 ∷ 0 ∷ []) 2 3 thor-Able
      (unfold payload in omega arith) text_lem refl refl (omega arith) refl refl

-- an `accept` that fails, a connection with the message and a part of another, and one that is cut
server_loop-ends_example :
    server_loop here
      (λ n. 0 ∷ 0 ∷ 65 ∷ 66 ∷ 67 ∷ 0 ∷ [])
      (λ n. true)
      (none ∷ some (frame text ∷ (60 ∷ []) ∷ []) ∷ some ((60 ∷ []) ∷ []) ∷ [])
      (record { thor = thor; count = 0; answers = []; printed = [] })
    ≢ returned none
server_loop-ends_example =
    server_loop-ends here (λ n. 0 ∷ 0 ∷ 65 ∷ 66 ∷ 67 ∷ 0 ∷ []) (λ n. true)
      (none ∷ some (frame text ∷ (60 ∷ []) ∷ []) ∷ some ((60 ∷ []) ∷ []) ∷ [])
      (record { thor = thor; count = 0; answers = []; printed = [] })

-- A short text is written whatever room is claimed, a long one past the end of the array.
short_held : pr_data (65 ∷ []) 0 2000 ≡ returned tt
unfolding pr_data
short_held = refl

long_overruns : pr_data (replicate 1500 65) 0 2000 ≡ undefined
unfolding pr_data
long_overruns = refl
