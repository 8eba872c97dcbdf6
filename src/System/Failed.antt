-- ===== src/System/Failed.antt =====
-- A round in which a message fails, and one after it: the same bytes are sent again.
use spsc.Prelude.{
  ℕ, zero, suc, ◌<◌, ◌≡◌, refl, ap, sym, ◌∙◌, true, none, some, Option, List, [], ◌++◌, append-nil,
  length, take, drop, returned,
}
use mathlib.Core.Path.{subst}
use spsc.Outside.{Outside}
use spsc.Segment.{load}
use spsc.Asgard.{Asgard}
use spsc.Jane.{Jane, acquire, take_back, prepare, on_reply}
use spsc.Thor.{Thor}
use spsc.System.{
  World, Event, exchanged, interfered, answer_lost, send_failed, early, exchange, round, run,
}
use spsc.Thor.Replies.{wrote, Able, took-Able}
use spsc.System.Exchange.{IsFair, serve_intact, came_over, sent}
use spsc.Frame.{frame}
use spsc.System.Round.{exchange_intact, sends, small}
use spsc.System.Ready.{Start, Ready, Sending, buffer, count, acquired}
use spsc.System.Prepare.{prepare_chunk}
use spsc.System.Transfer.{IsHonest, round_more}

-- The send fails, or it passes and the answer does not come back.
abbrev pub IsFailure : Event → Type 0
IsFailure (exchanged loki loki' cut back) = ⊥
IsFailure (interfered first loki loki' last cut back) = ⊥
IsFailure (answer_lost cut) = IsFair cut
IsFailure send_failed = Unit

-- how often the consumer takes the bytes over in the round of the failure
abbrev pub writes : Event → ℕ
writes (exchanged loki loki' cut back) = 1
writes (interfered first loki loki' last cut back) = 1
writes (answer_lost cut) = 1
writes send_failed = 0

abbrev pub copies : ℕ → List ℕ → List ℕ
copies zero chunk = []
copies (suc n) chunk = chunk ++ copies n chunk

IsFailure-early : (event : Event) → IsFailure event → (s : List ℕ) → early event s ≡ s
IsFailure-early (exchanged loki loki' cut back) h s = elim h [ ]
IsFailure-early (interfered first loki loki' last cut back) h s = elim h [ ]
IsFailure-early (answer_lost cut) h s = refl
IsFailure-early send_failed h s = refl

-- the producer of a message that it sends again
abbrev pub Failed :
    (o : Outside) (m : ℕ) (idle : Asgard) (u : ℕ)
    → Start o m idle u
    → ℕ
    → World
    → List ℕ
    → Option (List ℕ)
    → Type 0
Failed o m idle u st n w chunk unread =
    Sending o m idle u st n w.jane w.segment chunk
    × (load 1024 (length chunk) w.segment ≡ returned chunk)
    × (w.jane.failed ≡ true)
    × (w.jane.input_file_ptr ≡ unread)

module _ (o : Outside) (m : ℕ) (idle : Asgard) (u : ℕ) (st : Start o m idle u) where
  open st use {doc}

  prepare_again :
      (n : ℕ) (jane j : Jane) (segment : List ℕ) (shm_buffer : ℕ) (early : List ℕ → List ℕ)
      → acquire o n u jane ≡ returned (shm_buffer, j)
      → j.failed ≡ true
      → prepare o n u early jane segment ≡ returned (true, shm_buffer, j, segment)
  unfolding prepare
  prepare_again n jane j segment shm_buffer early run failed = simp (run, failed)

  -- before the next exchange the buffer is given back and taken again
  pub again :
      (n : ℕ) (jane : Jane) (segment chunk : List ℕ) (early : List ℕ → List ℕ)
      → Sending o m idle u st n jane segment chunk
      → jane.failed ≡ true
      → (j : Jane) × (prepare o (suc n) u early jane segment
          ≡ returned (true, buffer o m idle u st, j, segment))
        × Sending o m idle u st (suc n) j segment chunk
        × (j.failed ≡ true)
        × (j.input_file_ptr ≡ jane.input_file_ptr)
  again n jane segment chunk early s failed =
      let (a, run, at, back) = acquired o m idle u st (suc n) jane s.back in
      let j : Jane = record jane { asgard = a; shm_buffer = some (buffer o m idle u st) } in
      (
        j,
        prepare_again (suc n) jane j segment (buffer o m idle u st) early run failed,
        record {
          back = unfold take_back in back;
          data_ptr = at;
          filled = s.filled;
          small = s.small;
          segment_size = s.segment_size;
          llen = s.llen;
          digest = s.digest;
          md5_size = s.md5_size;
          no_ack = s.no_ack;
        },
        failed,
        refl,
      )

  pub failing :
      (n : ℕ) (jane : Jane) (segment chunk : List ℕ)
      → Sending o m idle u st n jane segment chunk
      → Sending o m idle u st n (on_reply none jane) segment chunk
  unfolding on_reply
  failing n jane segment chunk s = record {
    back = s.back;
    data_ptr = s.data_ptr;
    filled = s.filled;
    small = s.small;
    segment_size = s.segment_size;
    llen = s.llen;
    digest = s.digest;
    md5_size = s.md5_size;
    no_ack = s.no_ack;
  }

  -- the exchange in which the failure happens
  exchange_fails :
      (n : ℕ) (w : World) (chunk : List ℕ) (event : Event)
      → Sending o m idle u st n w.jane w.segment chunk
      → load 1024 (length chunk) w.segment ≡ returned chunk
      → Able o w.thor
      → IsFailure event
      → (thor : Thor) × (exchange o n (buffer o m idle u st) w event
          ≡ returned (record w { jane = on_reply none w.jane; thor = thor }))
        × (thor.output_file ≡ w.thor.output_file ++ copies (writes event) chunk)
        × Able o thor
  unfolding exchange
  exchange_fails n w chunk (exchanged loki loki' cut back) s held able h = elim h [ ]
  exchange_fails n w chunk (interfered first loki loki' last cut back) s held able h = elim h [ ]
  exchange_fails n w chunk (answer_lost cut) s held able fair = (
    wrote chunk w.thor,
    rw
        (
          sends o m idle u st n w chunk s,
          serve_intact o (suc m) doc chunk (small o m idle u st n w chunk s) n w.thor w.segment
              w.segment w.segment chunk chunk chunk able held held held
              (cut (frame (sent o (suc m) doc chunk (small o m idle u st n w chunk s)))) []
              (came_over o (suc m) doc chunk (small o m idle u st n w chunk s) cut fair) refl,
        )
        refl,
    ap (λ l. w.thor.output_file ++ l) (sym (append-nil chunk)),
    took-Able o chunk chunk w.thor able,
  )
  exchange_fails n w chunk send_failed s held able h =
      (w.thor, refl, sym (append-nil w.thor.output_file), able)

  pub round_fails :
      (n : ℕ) (w : World) (unread : List ℕ) (event : Event)
      → Ready o m idle u st n w.jane w.segment unread
      → 0 < length unread
      → Able o w.thor
      → IsFailure event
      → (w' : World) × (round o u n w event ≡ returned (true, w'))
        × Failed o m idle u st n w'
            (take (count o m idle u st) unread)
            (some (drop (count o m idle u st) unread))
        × (w'.thor.output_file
            ≡ w.thor.output_file ++ copies (writes event) (take (count o m idle u st) unread))
        × Able o w'.thor
  unfolding on_reply
  round_fails n w unread event r left able h =
      let (jane, segment, run, s, held, fine, file, ptr) =
        prepare_chunk o m idle u st n w.jane w.segment unread r left (early event)
          (IsFailure-early event h) in
      let chunk = take (count o m idle u st) unread in
      let w₁ : World = record w { jane = jane; segment = segment } in
      let (thor, e, out, able') = exchange_fails n w₁ chunk event s held able h in
      let w' : World = record { jane = on_reply none jane; thor = thor; segment = segment } in
      (
        w',
        round_more o m idle u st n w w' jane segment event run e,
        (failing n jane segment chunk s, held, refl, ptr),
        out,
        able',
      )

  -- a round after it
  pub round_repeats :
      (n : ℕ) (w : World) (chunk : List ℕ) (unread : Option (List ℕ)) (event : Event)
      → Failed o m idle u st n w chunk unread
      → Able o w.thor
      → IsHonest event
      → (w' : World) × (round o u (suc n) w event ≡ returned (true, w'))
        × Failed o m idle u st (suc n) w' chunk unread
        × (w'.thor.output_file ≡ w.thor.output_file ++ chunk)
        × Able o w'.thor
  round_repeats n w chunk unread (exchanged loki loki' cut back) (s, held, failed, ptr) able
        (same, same', fair, fair') =
      let (jane, run, s', failed', ptr') = again n w.jane w.segment chunk (λ s. s) s failed in
      let w₁ : World = record w { jane = jane } in
      let w' : World = record {
        jane = jane;
        thor = wrote chunk w.thor;
        segment = loki' (loki w.segment);
      } in
      let unchanged : loki' (loki w.segment) ≡ w.segment =
        same' (loki w.segment) ∙ same w.segment in
      (
        w',
        round_more o m idle u st (suc n) w w' jane w.segment (exchanged loki loki' cut back) run (
            exchange_intact o m idle u st (suc n) w₁ chunk s' loki loki' cut back fair fair' able
              chunk chunk (ap (load 1024 (length chunk)) (same w.segment) ∙ held)
              (ap (load 1024 (length chunk)) unchanged ∙ held) refl),
        (
          subst (λ segment. Sending o m idle u st (suc n) jane segment chunk) (sym unchanged) s',
          ap (load 1024 (length chunk)) unchanged ∙ held,
          failed',
          ptr' ∙ ptr,
        ),
        refl,
        took-Able o chunk chunk w.thor able,
      )
  round_repeats n w chunk unread (interfered first loki loki' last cut back) f able h = elim h [ ]
  round_repeats n w chunk unread (answer_lost cut) f able h = elim h [ ]
  round_repeats n w chunk unread send_failed f able h = elim h [ ]
