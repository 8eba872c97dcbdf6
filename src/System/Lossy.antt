-- ===== src/System/Lossy.antt =====
-- A round in which the network may lose any end of either message, and Loki may write before the
-- check.
use spsc.Prelude.{
  ℕ, suc, ◌+◌, ◌*◌, ◌<◌, ◌≡◌, ◌≢◌, ◌⊎◌, inl, inr, refl, ap, ◌∙◌, arith, none, some, Option, List,
  [], ◌++◌, All, Bool-cases, strcmp_equal, strcmp_equal_iff, length, returned,
}
use spsc.Outside.{Outside}
use spsc.Segment.{load}
use spsc.Asgard.{Asgard}
use spsc.Frame.{frame, receive, client_socket_rcv}
use spsc.Frame.Receive.{IsFramed, length-frame}
use spsc.Frame.Pieces.{IsFilled, flat, client_socket_rcv_prefix, server_socket_rcv_prefix}
use spsc.Jane.{Jane, on_reply}
use spsc.Thor.{Thor, serve, loki_warning}
use spsc.Thor.Replies.{wrote, Able}
use spsc.System.{
  World, Cut, Event, exchanged, interfered, answer_lost, send_failed, early, come_back, pass,
  exchange,
}
use spsc.System.Text.{text-IsFramed}
use spsc.System.Exchange.{sent, short, serve_intact, serve_changed, warning-IsFramed}
use spsc.System.Round.{sends, small, unmoved_sent, unmoved_warning}
use spsc.System.Ready.{Start, Sending, buffer}
use spsc.System.Guard.{Served}
use spsc.Segment.Slices.{load_lem}

-- a network that passes on the whole or a first part of what it is given, in pieces, and then closes
-- the connection
abbrev pub IsLossy : Cut → Type 0
IsLossy cut =
    (t : List ℕ)
    → 0 < length t
    → All IsFilled (cut t) × ((rest : List ℕ) × (flat (cut t) ++ rest ≡ t))

-- No one writes between the check and the use.
abbrev pub IsAny : Event → Type 0
IsAny (exchanged loki loki' cut back) =
    ((s : List ℕ) → length (loki s) ≡ length s)
    × ((s : List ℕ) → loki' s ≡ s)
    × IsLossy cut
    × IsLossy back
IsAny (interfered first loki loki' last cut back) = ⊥
IsAny (answer_lost cut) = IsLossy cut
IsAny send_failed = Unit

pub IsAny-early : (event : Event) → IsAny event → (s : List ℕ) → early event s ≡ s
IsAny-early (exchanged loki loki' cut back) h s = refl
IsAny-early (interfered first loki loki' last cut back) h s = elim h [ ]
IsAny-early (answer_lost cut) h s = refl
IsAny-early send_failed h s = refl

module _ (o : Outside) (m : ℕ) (idle : Asgard) (u : ℕ) (st : Start o m idle u) where
  open st use {doc, fits_u}

  module _ (n : ℕ) (w : World) (chunk : List ℕ) (s : Sending o m idle u st n w.jane w.segment chunk)
      (able : Able o w.thor) where
    -- The producer takes what comes back for a failure, or takes no notice of it.
    abbrev Replied : Jane → Type 0
    Replied jane = (jane ≡ w.jane) ⊎ (jane ≡ on_reply none w.jane)

    abbrev Comes : Cut → Option (List ℕ) → Type 0
    Comes back answer =
        (got : Option (List ℕ)) × (client_socket_rcv (come_back back answer) ≡ returned (got, []))
        × Replied (on_reply got w.jane)

    comes :
        (back : Cut) (is : List ℕ)
        → IsLossy back
        → IsFramed is
        → length is < 1000
        → on_reply (some is) w.jane ≡ w.jane
        → Comes back (some (frame is))
    comes back is lossy framed fits same =
        let (filled, (rest, part)) = lossy (frame is) (omega (arith, length-frame is)) in
        elim (client_socket_rcv_prefix is framed fits (back (frame is)) rest filled part) [
          | inl e ↦ (some is, e, inl same)
          | inr e ↦ (none, e, inr refl)
        ]

    Comes-none : (back : Cut) → Comes back none
    unfolding client_socket_rcv receive
    Comes-none back = (none, refl, inr refl)

    -- what the consumer makes of what comes of the message
    abbrev text : List ℕ
    text = sent o (suc m) doc chunk (small o m idle u st n w chunk s)

    abbrev Answers : List (List ℕ) → List ℕ → List ℕ → Cut → Type 0
    Answers pieces segment later back =
        (answer : Option (List ℕ)) × (thor : Thor) × (serve o n pieces w.thor segment later later
          ≡ returned (answer, thor, []))
        × Served o chunk w.thor thor
        × Comes back answer

    answers :
        (pieces : List (List ℕ)) (segment later rest : List ℕ) (back : Cut)
        → All IsFilled pieces
        → flat pieces ++ rest ≡ frame text
        → length segment ≡ (suc m + 1) * 1024
        → later ≡ segment
        → IsLossy back
        → Answers pieces segment later back
    unfolding serve spsc.Thor.answered
    answers pieces segment later rest back filled part size same lossy =
        let fits = short o (suc m) doc chunk (small o m idle u st n w chunk s) in
        let framed = text-IsFramed o (suc m) doc 1024 chunk in
        let (bytes, read, length-bytes) =
          load_lem 1024 (length chunk) segment (omega (arith, size, s.small, fits_u)) in
        let read' : load 1024 (length chunk) later ≡ returned bytes =
          ap (load 1024 (length chunk)) same ∙ read in
        elim (server_socket_rcv_prefix text framed (omega (arith, fits)) pieces rest filled part) [
          | inr e ↦ (none, w.thor, rw e refl, inl refl, Comes-none back)
          | inl e ↦ elim (Bool-cases (strcmp_equal (o.md5 bytes) (o.md5 chunk))) [
            | inl equal ↦
                let digest = (strcmp_equal_iff (o.md5 bytes) (o.md5 chunk)).0 equal in
                (
                  some (frame text),
                  wrote bytes w.thor,
                  serve_intact o (suc m) doc chunk (small o m idle u st n w chunk s) n w.thor
                      segment later later bytes bytes bytes able read read' read' pieces [] e
                      digest,
                  inr (bytes, digest, length-bytes, refl),
                  comes back text lossy framed (omega (arith, fits))
                      (unmoved_sent o m idle u st n w chunk s),
                )
            | inr unequal ↦
                let differ : o.md5 bytes ≢ o.md5 chunk =
                  λ digest. cc ((strcmp_equal_iff (o.md5 bytes) (o.md5 chunk)).1 digest, unequal) in
                (
                  some (frame loki_warning),
                  w.thor,
                  serve_changed o (suc m) doc chunk (small o m idle u st n w chunk s) n w.thor
                      segment later later bytes bytes bytes able read read' read' pieces [] e
                      differ,
                  inl refl,
                  comes back loki_warning lossy warning-IsFramed (omega arith)
                      (unmoved_warning o m idle u st n w chunk s),
                )
          ]
        ]

    abbrev Exchanged : Event → Type 0
    Exchanged event =
        (w' : World) × (exchange o n (buffer o m idle u st) w event ≡ returned w')
        × (length w'.segment ≡ (suc m + 1) * 1024)
        × Replied w'.jane
        × Served o chunk w.thor w'.thor

    pub exchange_any : (event : Event) → IsAny event → Exchanged event
    unfolding exchange pass
    exchange_any (exchanged loki loki' cut back) (same_length, same, lossy, lossy') =
        let (filled, (rest, part)) = lossy (frame text) (omega (arith, length-frame text)) in
        let size : length (loki w.segment) ≡ (suc m + 1) * 1024 =
          same_length w.segment ∙ s.segment_size in
        let (answer, thor, e, served, (got, e', replied)) =
          answers (cut (frame text)) (loki w.segment) (loki' (loki w.segment)) rest back filled part
            size (same (loki w.segment)) lossy' in
        (
          record { jane = on_reply got w.jane; thor = thor; segment = loki' (loki w.segment) },
          rw (sends o m idle u st n w chunk s, e, e') refl,
          ap length (same (loki w.segment)) ∙ size,
          replied,
          served,
        )
    exchange_any (answer_lost cut) lossy =
        let (filled, (rest, part)) = lossy (frame text) (omega (arith, length-frame text)) in
        let (answer, thor, e, served, comes) =
          answers (cut (frame text)) w.segment w.segment rest (λ t. []) filled part s.segment_size
            refl (λ t h. (tt, (t, refl))) in
        (
          record w { jane = on_reply none w.jane; thor = thor },
          rw (sends o m idle u st n w chunk s, e) refl,
          s.segment_size,
          inr refl,
          served,
        )
    exchange_any (interfered first loki loki' last cut back) h = elim h [ ]
    exchange_any send_failed h =
        (record w { jane = on_reply none w.jane }, refl, s.segment_size, inr refl, inl refl)
