-- ===== src/System/Exchange.antt =====
-- What the consumer makes of a message of the producer.
use spsc.Prelude.{
  Bool, ℕ, ◌^◌, ◌<◌, ◌≡◌, ◌≢◌, refl, ap, sym, ◌∙◌, arith, false, some, List, [], ◌++◌, append-nil,
  length, All, Bool-cases, inl, inr, returned, strcmp_equal, strcmp_equal_iff, if◌then◌else◌,
}
use spsc.Outside.{Outside, Documented}
use spsc.Segment.{load}
use spsc.Hash.Print.{hex}
use spsc.Hash.Intact.{hex_injective}
use spsc.Message.Parse.{parse_data-payload}
use spsc.Frame.{strstr, starts_with, frame, server_socket_rcv, client_socket_rcv}
use spsc.Frame.Receive.{All-ne, IsFramed, length-frame}
use spsc.Frame.Pieces.{IsFilled, flat, server_socket_rcv-frame, client_socket_rcv-frame}
use spsc.Jane.{client_message}
use spsc.Thor.Replies.{took, Able, server_socket_send_reads}
use spsc.Thor.{Thor, loki_warning, answered, serve, server_socket_send}
use spsc.System.{Cut}
use spsc.System.Text.{text, text-IsFramed, length-text, no_comma}
use spsc.Hash.Print.{length-hex}

-- a network that cuts what it is given into pieces that are not empty
abbrev pub IsFair : Cut → Type 0
IsFair cut = (t : List ℕ) → 0 < length t → All IsFilled (cut t) × (flat (cut t) ≡ t)

module _ (is : List ℕ) where
  framed :
      (cut : Cut)
      → IsFair cut
      → IsFramed is
      → length is < 1000
      → server_socket_rcv (cut (frame is)) ≡ returned (some is, [])
  framed cut fair ok short =
      let (filled, whole) = fair (frame is) (omega (arith, length-frame is)) in
      ap server_socket_rcv (sym (append-nil (cut (frame is))))
      ∙ server_socket_rcv-frame is (cut (frame is)) [] ok short filled whole

  -- an answer comes back whole
  pub came_back :
      (cut : Cut)
      → IsFair cut
      → IsFramed is
      → length is < 1000
      → client_socket_rcv (cut (frame is)) ≡ returned (some is, [])
  came_back cut fair ok short =
      let (filled, whole) = fair (frame is) (omega (arith, length-frame is)) in
      ap client_socket_rcv (sym (append-nil (cut (frame is))))
      ∙ client_socket_rcv-frame is (cut (frame is)) [] ok short filled whole

module _ (o : Outside) (members : ℕ) (doc : Documented o members) (chunk : List ℕ)
    (small : length chunk < 2 ^ 31) where
  abbrev pub sent : List ℕ
  sent = text o members doc 1024 chunk

  pub message_lem :
      (offset : ℕ) (digest : List ℕ) (llen : ℕ) (ack : Bool)
      → offset ≡ 1024
      → digest ≡ hex (o.md5 chunk)
      → llen ≡ length chunk
      → ack ≡ false
      → client_message o 1 offset digest llen ack ≡ frame sent
  unfolding client_message
  message_lem offset digest llen ack e d l a = rw (e, d, l, a) refl

  pub short : length sent < 900
  short = omega (arith, (length-text o members doc 1024 chunk (omega arith) small).1)

  module _ (n : ℕ) (thor : Thor) (segment later last bytes bytes' bytes'' : List ℕ)
      (able : Able o thor) (checked : load 1024 (length chunk) segment ≡ returned bytes)
      (written : load 1024 (length chunk) later ≡ returned bytes')
      (found : load 1024 (length chunk) last ≡ returned bytes'') where
    send_lem : server_socket_send o n sent thor segment later last ≡ (
        if strcmp_equal (hex (o.md5 bytes)) (hex (o.md5 chunk))
        then returned (frame sent, took bytes' bytes'' thor)
        else returned (frame loki_warning, thor))
    send_lem =
        let parsed =
          parse_data-payload o.atoi o.print_int doc.reads (no_comma o members doc) doc.short 1 1024
            (length chunk) (hex (o.md5 chunk)) (omega arith) (omega arith) small (omega arith)
            (omega arith) (omega (arith, length-hex (o.md5 chunk), doc.md5-length chunk)) in
        server_socket_send_reads o members doc n sent thor segment later last 1024 (length chunk)
          able bytes bytes' bytes'' short parsed refl refl checked written found

    -- Bytes with the digest of the message: the consumer writes what it then reads, and repeats the
    -- message.
    pub serve_intact :
        (pieces rest : List (List ℕ))
        → server_socket_rcv pieces ≡ returned (some sent, rest)
        → o.md5 bytes ≡ o.md5 chunk
        → serve o n pieces thor segment later last
          ≡ returned (some (frame sent), took bytes' bytes'' thor, rest)
    unfolding serve answered
    serve_intact pieces rest e same =
        let equal = (strcmp_equal_iff (hex (o.md5 bytes)) (hex (o.md5 chunk))).1 (ap hex same) in
        rw (e, send_lem, equal) refl

    -- Bytes with another digest: the consumer writes nothing, and warns.
    pub serve_changed :
        (pieces rest : List (List ℕ))
        → server_socket_rcv pieces ≡ returned (some sent, rest)
        → o.md5 bytes ≢ o.md5 chunk
        → serve o n pieces thor segment later last
          ≡ returned (some (frame loki_warning), thor, rest)
    unfolding serve answered
    serve_changed pieces rest e differ =
        let unequal : strcmp_equal (hex (o.md5 bytes)) (hex (o.md5 chunk)) ≡ false =
          elim (Bool-cases (strcmp_equal (hex (o.md5 bytes)) (hex (o.md5 chunk)))) [
            | inr e ↦ e
            | inl e ↦ absurd (
                differ (
                  hex_injective (o.md5 bytes) (o.md5 chunk) (doc.md5-bytes bytes)
                    (doc.md5-bytes chunk)
                    ((strcmp_equal_iff (hex (o.md5 bytes)) (hex (o.md5 chunk))).0 e)))
          ] in
        rw (e, send_lem, unequal) refl

  -- with more to come behind it
  pub came_over_before :
      (cut : Cut) (tail : List (List ℕ))
      → IsFair cut
      → server_socket_rcv (cut (frame sent) ++ tail) ≡ returned (some sent, tail)
  came_over_before cut tail fair =
      let (filled, whole) = fair (frame sent) (omega (arith, length-frame sent)) in
      server_socket_rcv-frame sent (cut (frame sent)) tail (text-IsFramed o members doc 1024 chunk)
        (omega (arith, short)) filled whole

  pub came_over :
      (cut : Cut) → IsFair cut → server_socket_rcv (cut (frame sent)) ≡ returned (some sent, [])
  came_over cut fair =
      framed sent cut fair (text-IsFramed o members doc 1024 chunk) (omega (arith, short))

-- the warning passes the framing as well
pub warning-IsFramed : IsFramed loki_warning
warning-IsFramed = record {
  end_at = unfold strstr starts_with in refl;
  nonzero = All-ne 0 (frame loki_warning) (omega arith);
  not_done = unfold strstr starts_with in refl;
}
