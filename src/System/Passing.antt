-- ===== src/System/Passing.antt =====
-- One round in which both messages pass, whatever Loki writes, as the consumer's connection sees it.
use mathlib.Core.Path.{subst}
use spsc.Prelude.{
  ℕ, suc, ◌+◌, ◌*◌, ◌<◌, ◌≡◌, ◌≢◌, inl, inr, refl, ap, sym, ◌∙◌, arith, true, some, List, [], ◌∷◌,
  ◌++◌, Bool-cases, strcmp_equal, strcmp_equal_iff, length, drop, returned,
}
use spsc.Outside.{Outside}
use spsc.Asgard.{Asgard}
use spsc.Jane.{Jane, prepare, message}
use spsc.Frame.{frame}
use spsc.Frame.Receive.{length-frame}
use spsc.Frame.Pieces.{flat}
use spsc.Thor.{Thor, loki_warning, serve}
use spsc.Thor.Loop.{weight}
use spsc.Thor.Replies.{took, Able, took-Able}
use spsc.System.{
  World, Cut, Event, exchanged, interfered, answer_lost, send_failed, early, pass, exchange,
}
use spsc.System.Exchange.{IsFair, sent, serve_intact, serve_changed, came_over_before}
use spsc.System.Round.{sends, small, pass_intact, pass_changed}
use spsc.System.Ready.{Start, Ready, Sending, buffer, count, Ready-again}
use spsc.System.Prepare.{prepare_early}
use spsc.Segment.Slices.{load_lem}
use spsc.System.Trace.{Seen, see}

-- Both messages pass, in pieces, and Loki writes what he likes: before the digest is made, before the
-- check of it, before the output, and before the search.
abbrev pub IsPassing : Event → Type 0
IsPassing (exchanged loki loki' cut back) =
    ((s : List ℕ) → length (loki s) ≡ length s)
    × ((s : List ℕ) → length (loki' s) ≡ length s)
    × IsFair cut
    × IsFair back
IsPassing (interfered first loki loki' last cut back) =
    ((s : List ℕ) → length (first s) ≡ length s)
    × ((s : List ℕ) → length (loki s) ≡ length s)
    × ((s : List ℕ) → length (loki' s) ≡ length s)
    × ((s : List ℕ) → length (last s) ≡ length s)
    × IsFair cut
    × IsFair back
IsPassing (answer_lost cut) = ⊥
IsPassing send_failed = ⊥

pos-weight : (pieces : List (List ℕ)) → 0 < length (flat pieces) → 0 < weight pieces
pos-weight [] h = absurd (omega arith)
pos-weight (piece ∷ pieces) h = omega arith

-- The consumer gives an answer to what it sees, and leaves what comes behind it.
abbrev pub IsAnswered : Outside → ℕ → Seen → Thor → Thor → Type 0
IsAnswered o n s thor thor' =
    (0 < weight s.pieces)
    × (answer : List ℕ) × ((tail : List (List ℕ))
        → serve o n (s.pieces ++ tail) thor s.checked s.written s.searched
          ≡ returned (some answer, thor', tail))

module _ (o : Outside) (m : ℕ) (idle : Asgard) (u : ℕ) (st : Start o m idle u) where
  open st use {doc, fits_u}

  module _ (n : ℕ) (w : World) (chunk : List ℕ) (s : Sending o m idle u st n w.jane w.segment chunk)
      (segment later last : List ℕ) (size : length segment ≡ (suc m + 1) * 1024)
      (size' : length later ≡ (suc m + 1) * 1024) (size'' : length last ≡ (suc m + 1) * 1024)
      (cut back : Cut) (fair : IsFair cut) (fair' : IsFair back) (able : Able o w.thor) where
    abbrev sight : Seen
    sight = record {
      pieces = cut (message o (buffer o m idle u st) w.jane);
      checked = segment;
      written = later;
      searched = last;
    }

    pieces-weight : 0 < weight sight.pieces
    pieces-weight =
        let text' = sent o (suc m) doc chunk (small o m idle u st n w chunk s) in
        let (filled, whole) = fair (frame text') (omega (arith, length-frame text')) in
        rw (sends o m idle u st n w chunk s)
          (pos-weight (cut (frame text')) (omega (arith, ap length whole, length-frame text')))

    -- the exchange, and the same answer with more behind it
    pass_passes :
        (w' : World) × (pass o n (buffer o m idle u st) w segment later last cut back ≡ returned w')
        × (w'.jane ≡ w.jane)
        × (length w'.segment ≡ (suc m + 1) * 1024)
        × IsAnswered o n sight w.thor w'.thor
        × Able o w'.thor
    pass_passes =
        let tiny = small o m idle u st n w chunk s in
        let text' = sent o (suc m) doc chunk tiny in
        let (bytes, first, length-bytes) =
          load_lem 1024 (length chunk) segment (omega (arith, size, s.small, fits_u)) in
        let (bytes', second, length-bytes') =
          load_lem 1024 (length chunk) later (omega (arith, size', s.small, fits_u)) in
        let (bytes'', third, length-bytes'') =
          load_lem 1024 (length chunk) last (omega (arith, size'', s.small, fits_u)) in
        let comes : (tail : List (List ℕ)) → _ =
          λ (tail : List (List ℕ)). came_over_before o (suc m) doc chunk tiny cut tail fair in
        elim (Bool-cases (strcmp_equal (o.md5 bytes) (o.md5 chunk))) [
          | inl e ↦
              let equal = (strcmp_equal_iff (o.md5 bytes) (o.md5 chunk)).0 e in
              (
                record { jane = w.jane; thor = took bytes' bytes'' w.thor; segment = last },
                pass_intact o m idle u st n w chunk s segment later last cut back fair fair' able
                    bytes bytes' bytes'' first second third equal,
                refl,
                size'',
                (
                  pieces-weight,
                  frame text',
                  λ tail. rw (sends o m idle u st n w chunk s) (
                      serve_intact o (suc m) doc chunk tiny n w.thor segment later last bytes bytes'
                        bytes'' able first second third (cut (frame text') ++ tail) tail
                        (comes tail) equal),
                ),
                took-Able o bytes' bytes'' w.thor able,
              )
          | inr e ↦
              let differ : o.md5 bytes ≢ o.md5 chunk =
                λ digest. cc ((strcmp_equal_iff (o.md5 bytes) (o.md5 chunk)).1 digest, e) in
              (
                record { jane = w.jane; thor = w.thor; segment = last },
                pass_changed o m idle u st n w chunk s segment later last cut back fair fair' able
                    bytes bytes' bytes'' first second third differ,
                refl,
                size'',
                (
                  pieces-weight,
                  frame loki_warning,
                  λ tail. rw (sends o m idle u st n w chunk s) (
                      serve_changed o (suc m) doc chunk tiny n w.thor segment later last bytes
                        bytes' bytes'' able first second third (cut (frame text') ++ tail) tail
                        (comes tail) differ),
                ),
                able,
              )
        ]

  IsPassing-early :
      (event : Event) → IsPassing event → (s : List ℕ) → length (early event s) ≡ length s
  IsPassing-early (exchanged loki loki' cut back) h s = refl
  IsPassing-early (interfered first loki loki' last cut back) h s = h.0 s
  IsPassing-early (answer_lost cut) h s = elim h [ ]
  IsPassing-early send_failed h s = elim h [ ]

  exchange_passes :
      (n : ℕ) (w : World) (chunk : List ℕ) (event : Event)
      → Sending o m idle u st n w.jane w.segment chunk
      → Able o w.thor
      → IsPassing event
      → (w' : World) × (exchange o n (buffer o m idle u st) w event ≡ returned w')
        × (w'.jane ≡ w.jane)
        × (length w'.segment ≡ (suc m + 1) * 1024)
        × IsAnswered o n
            (see event (message o (buffer o m idle u st) w.jane) w.segment)
            w.thor
            w'.thor
        × Able o w'.thor
  unfolding exchange
  exchange_passes n w chunk (exchanged loki loki' cut back) s able (l, l', fair, fair') =
      let segment = loki w.segment in
      let size = l w.segment ∙ s.segment_size in
      let size' = l' segment ∙ size in
      pass_passes n w chunk s segment (loki' segment) (loki' segment) size size' size' cut back fair
        fair' able
  exchange_passes n w chunk (interfered first loki loki' last cut back) s able
        (l₀, l, l', l'', fair, fair') =
      let segment = loki w.segment in
      let later = loki' segment in
      let size = l w.segment ∙ s.segment_size in
      let size' = l' segment ∙ size in
      pass_passes n w chunk s segment later (last later) size size' (l'' later ∙ size') cut back
        fair fair' able
  exchange_passes n w chunk (answer_lost cut) s able h = elim h [ ]
  exchange_passes n w chunk send_failed s able h = elim h [ ]

  -- A round that passes: what it sends is answered, and the producer is ready for the next.
  pub round_passes :
      (n : ℕ) (w : World) (unread : List ℕ) (event : Event)
      → Ready o m idle u st n w.jane w.segment unread
      → 0 < length unread
      → Able o w.thor
      → IsPassing event
      → (jane : Jane) × (segment : List ℕ) × (w' : World) × (prepare o n u
            (early event)
            w.jane
            w.segment
          ≡ returned (true, buffer o m idle u st, jane, segment))
        × (exchange o n (buffer o m idle u st) (record w { jane = jane; segment = segment }) event
            ≡ returned w')
        × Ready o m idle u st (suc n) w'.jane w'.segment (drop (count o m idle u st) unread)
        × IsAnswered o n (see event (message o (buffer o m idle u st) jane) segment) w.thor w'.thor
        × Able o w'.thor
  round_passes n w unread event r left able passing =
      let (bytes, (jane, segment, run, s, held, fine, file, ptr)) =
        prepare_early o m idle u st n w.jane w.segment unread r left (early event)
          (IsPassing-early event passing) in
      let w₁ : World = record w { jane = jane; segment = segment } in
      let (w', e, same, size, answered, able') = exchange_passes n w₁ bytes event s able passing in
      (
        jane,
        segment,
        w',
        run,
        e,
        subst (λ j. Ready o m idle u st (suc n) j w'.segment (drop (count o m idle u st) unread))
            (sym same)
            (Ready-again o m idle u st n jane segment w'.segment bytes r.name
              (drop (count o m idle u st) unread) s size fine file ptr),
        answered,
        able',
      )
