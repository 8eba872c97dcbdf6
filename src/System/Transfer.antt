-- ===== src/System/Transfer.antt =====
-- On a network that loses nothing, and with no one who writes into the segment, the whole file
-- arrives.
use mathlib.Core.Path.{subst}
use spsc.Prelude.{
  ℕ, suc, ◌+◌, ◌*◌, ◌<◌, ◌≡◌, refl, ap, sym, ◌∙◌, arith, true, false, none, some, Option, List, [],
  ◌∷◌, ◌++◌, append-nil, append_assoc, length, take, drop, length-drop, All, returned,
  take-append-drop,
}
use spsc.Outside.{Outside}
use spsc.Segment.{load}
use spsc.Asgard.{Asgard}
use spsc.Jane.{Jane, prepare}
use spsc.Thor.{Thor}
use spsc.Substring.{Sstring}
use spsc.Substring.Scan.{scan, scan-append}
use spsc.System.{
  World, Event, exchanged, interfered, answer_lost, send_failed, early, exchange, round, run,
}
use spsc.Thor.Replies.{wrote, scanned, Able, took-Able}
use spsc.System.Exchange.{IsFair}
use spsc.System.Round.{exchange_intact}
use spsc.System.Ready.{Start, Ready, buffer, count, Ready-again, count_lem}
use spsc.System.Prepare.{prepare_end, prepare_chunk}

-- Both messages pass, in pieces, and no one writes into the segment.
abbrev pub IsHonest : Event → Type 0
IsHonest (exchanged loki loki' cut back) =
    ((s : List ℕ) → loki s ≡ s) × ((s : List ℕ) → loki' s ≡ s) × IsFair cut × IsFair back
IsHonest (interfered first loki loki' last cut back) = ⊥
IsHonest (answer_lost cut) = ⊥
IsHonest send_failed = ⊥

pub scanned-nil : (context : Option Sstring) → scanned [] context ≡ context
unfolding scanned scan
scanned-nil none = refl
scanned-nil (some context) = refl

pub scanned-append :
    (xs ys : List ℕ) (context : Option Sstring)
    → scanned ys (scanned xs context) ≡ scanned (xs ++ ys) context
unfolding scanned
scanned-append xs ys none = refl
scanned-append xs ys (some context) = ap some (sym (scan-append xs ys context))

module _ (o : Outside) (m : ℕ) (idle : Asgard) (u : ℕ) (st : Start o m idle u) where
  open st use {doc, holds, pos_u, fits_u, few}

  pub round_more :
      (n : ℕ) (w w' : World) (jane : Jane) (segment : List ℕ) (event : Event)
      → prepare o n u (early event) w.jane w.segment
        ≡ returned (true, buffer o m idle u st, jane, segment)
      → exchange o n (buffer o m idle u st) (record w { jane = jane; segment = segment }) event
        ≡ returned w'
      → round o u n w event ≡ returned (true, w')
  unfolding round
  round_more n w w' jane segment event e e' = rw (e, e') refl

  -- In such a round the consumer takes over the next bytes of the file.
  pub round_honest :
      (n : ℕ) (w : World) (unread : List ℕ) (event : Event)
      → Ready o m idle u st n w.jane w.segment unread
      → 0 < length unread
      → Able o w.thor
      → IsHonest event
      → (w' : World) × (round o u n w event ≡ returned (true, w'))
        × Ready o m idle u st (suc n) w'.jane w'.segment (drop (count o m idle u st) unread)
        × (w'.thor ≡ wrote (take (count o m idle u st) unread) w.thor)
  round_honest n w unread (exchanged loki loki' cut back) r left able (same, same', fair, fair') =
      let (jane, segment, run, s, held, fine, file, ptr) =
        prepare_chunk o m idle u st n w.jane w.segment unread r left (λ s. s) (λ s. refl) in
      let chunk = take (count o m idle u st) unread in
      let w₁ : World = record w { jane = jane; segment = segment } in
      let first : load 1024 (length chunk) (loki segment) ≡ returned chunk =
        ap (load 1024 (length chunk)) (same segment) ∙ held in
      let second : load 1024 (length chunk) (loki' (loki segment)) ≡ returned chunk =
        ap (load 1024 (length chunk)) (same' (loki segment)) ∙ first in
      let size : length (loki' (loki segment)) ≡ (suc m + 1) * 1024 =
        ap length (same' (loki segment) ∙ same segment) ∙ s.segment_size in
      (
        record { jane = jane; thor = wrote chunk w.thor; segment = loki' (loki segment) },
        round_more n w
            (record { jane = jane; thor = wrote chunk w.thor; segment = loki' (loki segment) }) jane
            segment (exchanged loki loki' cut back) run
            (exchange_intact o m idle u st n w₁ chunk s loki loki' cut back fair fair' able chunk
              chunk first second refl),
        Ready-again o m idle u st n jane segment (loki' (loki segment)) chunk r.name
            (drop (count o m idle u st) unread) s size fine file ptr,
        refl,
      )
  round_honest n w unread (interfered first loki loki' last cut back) r left able h = elim h [ ]
  round_honest n w unread (answer_lost cut) r left able h = elim h [ ]
  round_honest n w unread send_failed r left able h = elim h [ ]

  pub round_end :
      (n : ℕ) (w : World) (event : Event)
      → Ready o m idle u st n w.jane w.segment []
      → (jane : Jane) × (round o u n w event ≡ returned (false, record w { jane = jane }))
  unfolding round
  round_end n w event r =
      let (jane, run) = prepare_end o m idle u st n w.jane w.segment [] r (early event) refl in
      (jane, rw run refl)

  -- The producer is ready for a round and the consumer able to write and search, where the outside
  -- does what is documented. With more
  -- rounds in which both messages pass, in pieces, and no one writes into the segment, than there
  -- are bytes left to read: the producer's loop ends, and what was left of the file stands at the
  -- end of the output file, and has been searched.
  pub run_transfers :
      (events : List Event) (n : ℕ) (w : World) (unread : List ℕ)
      → Ready o m idle u st n w.jane w.segment unread
      → length unread < length events
      → Able o w.thor
      → All IsHonest events
      → (w' : World) × (run o u events n w ≡ returned (false, w'))
        × (w'.thor.output_file ≡ w.thor.output_file ++ unread)
        × (w'.thor.substring_context ≡ scanned unread w.thor.substring_context)
  unfolding run
  run_transfers [] n w unread r h able honest = absurd (omega (arith, h))
  run_transfers (event ∷ events) n w [] r h able honest =
      let (jane, e) = round_end n w event r in
      (
        record w { jane = jane },
        rw e refl,
        sym (append-nil w.thor.output_file),
        sym (scanned-nil w.thor.substring_context),
      )
  run_transfers (event ∷ events) n w (x ∷ xs) r h able honest =
      let c = count o m idle u st in
      let unread : List ℕ = x ∷ xs in
      let (w₁, e, r₁, wrote₁) = round_honest n w unread event r (omega arith) able (honest.0) in
      let less : length (drop c unread) < length events =
        omega (arith, length-drop c unread, count_lem o m idle u st, pos_u, h) in
      let (w', rest, out, ctx) =
        run_transfers events (suc n) w₁ (drop c unread) r₁ less
          (subst (Able o) (sym wrote₁) (took-Able o (take c unread) (take c unread) w.thor able))
          (honest.1) in
      (
        w',
        rw (e, rest) refl,
        out
            ∙ ap (λ (t : Thor). t.output_file ++ drop c unread) wrote₁
            ∙ append_assoc w.thor.output_file (take c unread) (drop c unread)
            ∙ ap (λ l. w.thor.output_file ++ l) (take-append-drop c unread),
        ctx
            ∙ ap (λ (t : Thor). scanned (drop c unread) t.substring_context) wrote₁
            ∙ scanned-append (take c unread) (drop c unread) w.thor.substring_context
            ∙ ap (λ l. scanned l w.thor.substring_context) (take-append-drop c unread),
      )
