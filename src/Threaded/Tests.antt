-- ===== src/Threaded/Tests.antt =====
-- Runs of the two threads.
use spsc.Prelude.{
  ℕ, ◌≡◌, refl, arith, some, List, [], ◌∷◌, replicate, length-replicate, returned, ◌>>=◌,
}
use spsc.Examples.{file, here, idle, start, ready}
use spsc.Radix.{radix_sort, radix_loop, place_all, count_digits, accumulate, fill, copy, move_array}
use spsc.Asgard.{all_free, transfer, sort_pool, shm_alloc}
use spsc.Queue.{q_init, q_full, q_add, q_empty, q_remove, add_counter}
use spsc.Lock.{turn}
use spsc.Jane.{Jane, threaded_read_input_file, opened, read_count, read_input_file}
use spsc.Threaded.{
  Threads, Turn, reads, asks, got, started, client_turn, keep_buffers_ready, reader_turn, run,
}
use spsc.Threaded.Waits.{Waits, run-Waits}

abbrev segment : List ℕ
segment = replicate 4096 0

-- both at the lock, the reader first
abbrev schedule : List Turn
schedule = reads ∷ asks ∷ reads ∷ asks ∷ reads ∷ asks ∷ asks ∷ []

run-Waits_example :
    (w : Threads) × ((started ready segment 77 >>= run here 1 schedule 0) ≡ returned w)
    × Waits ready segment w
run-Waits_example =
    run-Waits here 2 idle 1 start ready segment file (102 ∷ []) 77 refl refl (unfold opened in refl)
      (omega arith) (length-replicate {A = ℕ} 4096 0) schedule

-- Of a file with nothing in it an element comes that has the address of a buffer, and the size
-- with which the reader began.
nothing_read :
    ((started (record ready { input_file_ptr = some [] }) segment 77
        >>= run here 1 (reads ∷ reads ∷ reads ∷ asks ∷ asks ∷ asks ∷ []) 0)
      >>= λ w. returned w.client)
    ≡ returned (got (some (record { sz = 77; line = 6024 })))
unfolding started q_init run reader_turn client_turn keep_buffers_ready q_full q_add q_empty
    q_remove add_counter turn shm_alloc all_free transfer sort_pool move_array radix_sort radix_loop
    place_all count_digits accumulate fill copy read_input_file read_count opened
nothing_read = refl

-- The two functions that read the file are the same.
same_reading :
    (u buffer : ℕ) (jane : Jane) (bytes : List ℕ)
    → threaded_read_input_file here u buffer jane bytes ≡ read_input_file here u buffer jane bytes
unfolding threaded_read_input_file read_input_file
same_reading u buffer jane bytes = refl
