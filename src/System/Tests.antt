-- ===== src/System/Tests.antt =====
-- Runs of the two programs on a segment with three buffers at address 5000, one of them in use at
-- once, on a file of three bytes.
use spsc.Prelude.{
  ℕ, ◌≡◌, refl, arith, false, some, List, [], ◌∷◌, take, set, replicate, length-replicate,
}
use spsc.Examples.{here-Documented, idle, start, ready, honest, here}
use spsc.Substring.{sstring_init}
use spsc.Segment.Slices.{written}
use spsc.Jane.{opened, take_back}
use spsc.System.{World, Event, interfered, exchanged, answer_lost, send_failed, Cut, run}
use spsc.System.Ready.{Ready}
use spsc.Prelude.{undefined}
use spsc.System.Oversize.{run_overruns}

-- before the first round, with "B" searched for
abbrev first : World
first = record {
  jane = ready;
  thor = record {
    asgard = idle;
    output_file_str = some (111 ∷ []);
    output_open = false;
    output_file = 90 ∷ [];
    substring_context = some (sstring_init (66 ∷ []));
  };
  segment = replicate 4096 0;
}

-- one who writes "BBA" over the first buffer
abbrev loki : List ℕ → List ℕ
loki = written 1024 (66 ∷ 66 ∷ 65 ∷ [])

abbrev tampered : Event
tampered = exchanged (λ s. set s 1024 66) (λ s. s) (λ t. t ∷ []) (λ t. t ∷ [])

-- Loki before the check of the first message, after that of the second, and at every time in the third
abbrev attacked : List Event
attacked =
    tampered
    ∷ exchanged (λ s. s) (λ s. set s 1025 66) (λ t. t ∷ []) (λ t. t ∷ [])
    ∷ interfered (λ s. set s 1024 66) (λ s. set s 2000 1) (λ s. set s 1025 7) (λ s. set s 1026 8)
        (λ t. t ∷ []) (λ t. t ∷ [])
    ∷ honest
    ∷ []

-- the first part of a text, in one piece
abbrev cut_short : Cut
cut_short t = take 5 t ∷ []

abbrev storm : List Event
storm =
    tampered
    ∷ send_failed
    ∷ exchanged (λ s. s) (λ s. s) cut_short (λ t. t ∷ [])
    ∷ answer_lost (λ t. t ∷ [])
    ∷ honest
    ∷ []

-- one byte more than there is room for
abbrev long_file : List ℕ
long_file = replicate 3073 65

run_overruns_example :
    run here 0
      (honest ∷ [])
      0
      (record first { jane = record ready { input_file_ptr = some long_file } })
    ≡ undefined
run_overruns_example =
    run_overruns here 2 idle here-Documented start.holds 0
      (record first { jane = record ready { input_file_ptr = some long_file } }) (102 ∷ [])
      long_file (unfold take_back in refl) refl refl (unfold opened in refl)
      (omega (arith, length-replicate {A = ℕ} 4096 0, length-replicate {A = ℕ} 3073 65))
      (omega (arith, length-replicate {A = ℕ} 3073 65))
      (omega (arith, length-replicate {A = ℕ} 3073 65)) honest []
