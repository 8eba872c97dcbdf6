-- ===== src/System/Resend.antt =====
-- What a round on such a network leaves: the producer is ready for the next one, or sends the same
-- message again.
use mathlib.Core.Path.{subst}
use spsc.Prelude.{
  ℕ, suc, ◌+◌, ◌*◌, ◌<◌, ◌≡◌, ◌⊎◌, inl, inr, refl, sym, true, none, List, length, take, drop,
  returned,
}
use spsc.Outside.{Outside}
use spsc.Asgard.{Asgard}
use spsc.Jane.{Jane, on_reply}
use spsc.Thor.Replies.{Able}
use spsc.System.{early, World, Event, round}
use spsc.System.Ready.{Start, Ready, Sending, count, Ready-again}
use spsc.System.Prepare.{prepare_chunk}
use spsc.System.Transfer.{round_more}
use spsc.System.Failed.{again, failing}
use spsc.System.Guard.{Served}
use spsc.System.Lossy.{IsAny, IsAny-early, exchange_any}

module _ (o : Outside) (m : ℕ) (idle : Asgard) (u : ℕ) (st : Start o m idle u) where
  -- after a failure: the same message is sent again
  abbrev pub Resending : ℕ → World → List ℕ → Type 0
  Resending n w chunk = Sending o m idle u st n w.jane w.segment chunk × (w.jane.failed ≡ true)

  Sending-segment :
      (n : ℕ) (jane : Jane) (segment segment' chunk : List ℕ)
      → length segment' ≡ (suc m + 1) * 1024
      → Sending o m idle u st n jane segment chunk
      → Sending o m idle u st n jane segment' chunk
  Sending-segment n jane segment segment' chunk size s = record {
    back = s.back;
    data_ptr = s.data_ptr;
    filled = s.filled;
    small = s.small;
    segment_size = size;
    llen = s.llen;
    digest = s.digest;
    md5_size = s.md5_size;
    no_ack = s.no_ack;
  }

  failed-on_reply : (jane : Jane) → (on_reply none jane).failed ≡ true
  unfolding on_reply
  failed-on_reply jane = refl

  -- the producer after a failure in which it sent a message
  Resending-failed :
      (n : ℕ) (jane : Jane) (segment chunk : List ℕ) (w' : World)
      → Sending o m idle u st n jane segment chunk
      → length w'.segment ≡ (suc m + 1) * 1024
      → w'.jane ≡ on_reply none jane
      → Resending n w' chunk
  Resending-failed n jane segment chunk w' s size e =
      subst (λ j. Sending o m idle u st n j w'.segment chunk × (j.failed ≡ true)) (sym e)
        (
          Sending-segment n (on_reply none jane) segment w'.segment chunk size
              (failing o m idle u st n jane segment chunk s),
          failed-on_reply jane,
        )

  -- a round that begins with a read
  pub round_any :
      (n : ℕ) (w : World) (unread : List ℕ) (event : Event)
      → Ready o m idle u st n w.jane w.segment unread
      → 0 < length unread
      → Able o w.thor
      → IsAny event
      → (w' : World) × (round o u n w event ≡ returned (true, w'))
        × Served o (take (count o m idle u st) unread) w.thor w'.thor
        × (Ready o m idle u st (suc n) w'.jane w'.segment (drop (count o m idle u st) unread)
            ⊎ Resending n w' (take (count o m idle u st) unread))
  round_any n w unread event r left able any =
      let (jane, segment, run, s, held, fine, file, ptr) =
        prepare_chunk o m idle u st n w.jane w.segment unread r left (early event)
          (IsAny-early event any) in
      let chunk = take (count o m idle u st) unread in
      let rest = drop (count o m idle u st) unread in
      let w₁ : World = record w { jane = jane; segment = segment } in
      let (w', e, size, replied, served) = exchange_any o m idle u st n w₁ chunk s able event any in
      (
        w',
        round_more o m idle u st n w w' jane segment event run e,
        served,
        elim replied [
          | inl same ↦ inl (
              subst (λ j. Ready o m idle u st (suc n) j w'.segment rest) (sym same)
                (Ready-again o m idle u st n jane segment w'.segment chunk r.name rest s size fine
                  file ptr))
          | inr failed ↦ inr (Resending-failed n jane segment chunk w' s size failed)
        ],
      )

  -- one that sends the same message again
  pub round_resends :
      (n : ℕ) (w : World) (chunk : List ℕ) (event : Event)
      → Resending n w chunk
      → Able o w.thor
      → IsAny event
      → (w' : World) × (round o u (suc n) w event ≡ returned (true, w'))
        × Served o chunk w.thor w'.thor
        × Resending (suc n) w' chunk
  round_resends n w chunk event (s, failed) able any =
      let (jane, run, s', failed', ptr') =
        again o m idle u st n w.jane w.segment chunk (early event) s failed in
      let w₁ : World = record w { jane = jane } in
      let (w', e, size, replied, served) =
        exchange_any o m idle u st (suc n) w₁ chunk s' able event any in
      (
        w',
        round_more o m idle u st (suc n) w w' jane w.segment event run e,
        served,
        elim replied [
          | inl same ↦
              subst (λ j. Sending o m idle u st (suc n) j w'.segment chunk × (j.failed ≡ true))
                (sym same)
                (Sending-segment (suc n) jane w.segment w'.segment chunk size s', failed')
          | inr once_more ↦ Resending-failed (suc n) jane w.segment chunk w' s' size once_more
        ],
      )
