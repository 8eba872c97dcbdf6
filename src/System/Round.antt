-- ===== src/System/Round.antt =====
-- One round in which both messages pass: the producer takes no notice of the answer.
use spsc.Prelude.{
  ℕ, suc, ◌+◌, ◌-◌, ◌^◌, ◌<◌, ◌≡◌, ◌≢◌, refl, ap, ◌∙◌, arith, false, some, List, length, Bool-cases,
  inl, inr, returned, strcmp_equal, strcmp_equal_iff, c_string, [],
}
use spsc.Outside.{Outside}
use spsc.Segment.{load}
use spsc.Asgard.{Asgard, get_offset}
use spsc.Hash.Print.{hex}
use spsc.Frame.{frame}
use spsc.Jane.{message, on_reply, is_ack}
use spsc.Thor.{loki_warning}
use spsc.System.{World, exchanged, exchange, pass}
use spsc.System.Text.{text-IsFramed, text-ne_digest}
use spsc.Hash.Print.{length-hex}
use spsc.Thor.Replies.{took, wrote, Able}
use spsc.System.Exchange.{
  IsFair, sent, short, message_lem, serve_intact, came_over, serve_changed, came_back,
  warning-IsFramed,
}
use spsc.System.Ready.{Start, Sending, buffer}

warning-ne_digest : (d : List ℕ) → length d ≡ 32 → strcmp_equal loki_warning d ≡ false
warning-ne_digest d h = elim (Bool-cases (strcmp_equal loki_warning d)) [
  | inr e ↦ e
  | inl e ↦ absurd (omega (arith, ap length ((strcmp_equal_iff loki_warning d).0 e), h))
]

module _ (o : Outside) (m : ℕ) (idle : Asgard) (u : ℕ) (st : Start o m idle u) where
  open st use {doc, holds, pos_u, fits_u, few}

  module _ (n : ℕ) (w : World) (chunk : List ℕ)
      (s : Sending o m idle u st n w.jane w.segment chunk) where
    pub small : length chunk < 2 ^ 31
    small = omega (arith, s.small, fits_u, few)

    pub sends : message o (buffer o m idle u st) w.jane ≡ frame (sent o (suc m) doc chunk small)
    unfolding message get_offset is_ack
    sends =
        message_lem o (suc m) doc chunk small (idle.data_ptr + 1024 - w.jane.asgard.data_ptr)
          (c_string w.jane.md5) w.jane.llen w.jane.doack (omega (arith, s.data_ptr)) s.digest s.llen
          s.no_ack

    -- Neither answer of the consumer is what the producer waits for.
    pub unmoved_sent : on_reply (some (sent o (suc m) doc chunk small)) w.jane ≡ w.jane
    unfolding on_reply
    unmoved_sent =
        let e : strcmp_equal (sent o (suc m) doc chunk small) (c_string w.jane.md5) ≡ false =
          ap (strcmp_equal (sent o (suc m) doc chunk small)) s.digest
          ∙ text-ne_digest o (suc m) doc 1024 chunk (omega arith) small in
        rw e refl

    pub unmoved_warning : on_reply (some loki_warning) w.jane ≡ w.jane
    unfolding on_reply
    unmoved_warning =
        let e : strcmp_equal loki_warning (c_string w.jane.md5) ≡ false =
          ap (strcmp_equal loki_warning) s.digest
          ∙ warning-ne_digest (hex (o.md5 chunk))
              (omega (arith, length-hex (o.md5 chunk), doc.md5-length chunk)) in
        rw e refl

    module _ (segment later last : List ℕ) (cut back : List ℕ → List (List ℕ)) (fair : IsFair cut)
        (fair' : IsFair back) (able : Able o w.thor) (bytes bytes' bytes'' : List ℕ)
        (checked : load 1024 (length chunk) segment ≡ returned bytes)
        (written : load 1024 (length chunk) later ≡ returned bytes')
        (found : load 1024 (length chunk) last ≡ returned bytes'') where
      pub pass_intact :
          o.md5 bytes ≡ o.md5 chunk
          → pass o n (buffer o m idle u st) w segment later last cut back
            ≡ returned (record { jane = w.jane; thor = took bytes' bytes'' w.thor; segment = last })
      unfolding pass
      pass_intact same =
          let text' = sent o (suc m) doc chunk small in
          rw
            (
              sends,
              serve_intact o (suc m) doc chunk small n w.thor segment later last bytes bytes'
                  bytes'' able checked written found (cut (frame text')) []
                  (came_over o (suc m) doc chunk small cut fair) same,
              came_back text' back fair' (text-IsFramed o (suc m) doc 1024 chunk)
                  (omega (arith, short o (suc m) doc chunk small)),
            )
            (ap
              (λ j.
                returned (record { jane = j; thor = took bytes' bytes'' w.thor; segment = last }))
              unmoved_sent)

      pub pass_changed :
          o.md5 bytes ≢ o.md5 chunk
          → pass o n (buffer o m idle u st) w segment later last cut back
            ≡ returned (record { jane = w.jane; thor = w.thor; segment = last })
      unfolding pass
      pass_changed differ =
          let text' = sent o (suc m) doc chunk small in
          rw
            (
              sends,
              serve_changed o (suc m) doc chunk small n w.thor segment later last bytes bytes'
                  bytes'' able checked written found (cut (frame text')) []
                  (came_over o (suc m) doc chunk small cut fair) differ,
              came_back loki_warning back fair' warning-IsFramed (omega arith),
            )
            (ap (λ j. returned (record { jane = j; thor = w.thor; segment = last }))
              unmoved_warning)

    module _ (loki loki' : List ℕ → List ℕ) (cut back : List ℕ → List (List ℕ)) (fair : IsFair cut)
        (fair' : IsFair back) (able : Able o w.thor) (bytes bytes' : List ℕ)
        (checked : load 1024 (length chunk) (loki w.segment) ≡ returned bytes)
        (written : load 1024 (length chunk) (loki' (loki w.segment)) ≡ returned bytes') where
      pub exchange_intact :
          o.md5 bytes ≡ o.md5 chunk
          → exchange o n (buffer o m idle u st) w (exchanged loki loki' cut back)
            ≡ returned (record {
              jane = w.jane;
              thor = wrote bytes' w.thor;
              segment = loki' (loki w.segment);
            })
      unfolding exchange
      exchange_intact =
          let segment = loki w.segment in
          pass_intact segment (loki' segment) (loki' segment) cut back fair fair' able bytes bytes'
            bytes' checked written written

      pub exchange_changed :
          o.md5 bytes ≢ o.md5 chunk
          → exchange o n (buffer o m idle u st) w (exchanged loki loki' cut back)
            ≡ returned (record { jane = w.jane; thor = w.thor; segment = loki' (loki w.segment) })
      unfolding exchange
      exchange_changed =
          let segment = loki w.segment in
          pass_changed segment (loki' segment) (loki' segment) cut back fair fair' able bytes bytes'
            bytes' checked written written
