-- ===== src/Thor/Replies.antt =====
-- The answers of thor.c: what `server_socket_send` does with a text that can be parsed.
use spsc.Substring.{Sstring}
use spsc.Substring.Scan.{scan, Searching, sstring_compute-scan, scan-Searching}
use spsc.Prelude.{
  Option, none, some, Bool, ℕ, ◌+◌, ◌-◌, ◌≤◌, ◌<◌, ◌≡◌, refl, ap, ◌∙◌, arith, true, false, List, [],
  ◌∷◌, ◌++◌, length, take, drop, ltb, leb, pos, returned, undefined, take_all, strcmp_equal,
  if◌then◌else◌, check, ◌>>◌,
}
use spsc.Outside.{Outside, Documented}
use spsc.Segment.{load}
use spsc.Segment.Slices.{take-length_append}
use spsc.Asgard.{get_buffer}
use spsc.Hash.{big_enough}
use spsc.Hash.Print.{hex}
use spsc.Hash.Intact.{does_string_intact_lem}
use spsc.Message.{Parsed, parse_data}
use spsc.Frame.{frame}
use spsc.Frame.Receive.{length-frame}
use spsc.Thor.{
  Thor, printed, searched, accept, refuse, index, loki_warning, server_socket_send,
  server_flush_transaction,
}

-- the search where every read is in the pattern
unfoldable pub scanned : List ℕ → Option Sstring → Option Sstring
scanned bytes none = none
scanned bytes (some context) = some (scan context bytes)

-- the consumer that has written `bytes`, and searched `bytes'`
abbrev pub took : List ℕ → List ℕ → Thor → Thor
took bytes bytes' thor = record thor {
  output_open = true;
  output_file = thor.output_file ++ bytes;
  substring_context = scanned bytes' thor.substring_context;
}

-- both the same
abbrev pub wrote : List ℕ → Thor → Thor
wrote bytes thor = took bytes bytes thor

abbrev pub CanSearch : Option Sstring → Type 0
CanSearch none = Unit
CanSearch (some context) = Searching context

-- The output file can be opened, and the search, if there is one, is for a pattern that is not empty.
pub record Able (o : Outside) (thor : Thor) : Type 0 where
  pub opens : o.fopen_output thor.output_file_str ≡ true
  pub searches : CanSearch thor.substring_context

pub searched-scanned :
    (bytes : List ℕ) (context : Option Sstring)
    → CanSearch context
    → searched bytes context ≡ returned (scanned bytes context)
unfolding searched scanned
searched-scanned bytes none h = refl
searched-scanned bytes (some context) h = rw (sstring_compute-scan bytes context h) refl

scanned-CanSearch :
    (bytes : List ℕ) (context : Option Sstring)
    → CanSearch context
    → CanSearch (scanned bytes context)
unfolding scanned
scanned-CanSearch bytes none h = tt
scanned-CanSearch bytes (some context) h = scan-Searching bytes context h

pub took-Able :
    (o : Outside) (bytes bytes' : List ℕ) (thor : Thor)
    → Able o thor
    → Able o (took bytes bytes' thor)
took-Able o bytes bytes' thor able = record {
  opens = able.opens;
  searches = scanned-CanSearch bytes' thor.substring_context able.searches;
}

printed_lem : (t : List ℕ) → length t < 1000 → printed t ≡ returned t
unfolding printed
printed_lem t h =
    let short : ltb big_enough (length t) ≡ false =
      (let le : length t < big_enough = omega (arith, h) in ground arith) in
    rw short (
      ap (λ l. returned (take (length t) (l ++ 0 ∷ [])))
        (take_all (big_enough - 1) t (omega (arith, h)))
      ∙ ap returned (take-length_append t (0 ∷ []) (length t) refl))

refuse_lem : (thor : Thor) → refuse thor ≡ returned (frame loki_warning, thor)
unfolding refuse printed
refuse_lem thor = refl

module _ (o : Outside) (members : ℕ) (doc : Documented o members) where
  opens :
      (is_open : Bool) (name : Option (List ℕ))
      → o.fopen_output name ≡ true
      → (if is_open then true else o.fopen_output name) ≡ true
  opens true name h = refl
  opens false name h = h

  flush_lem :
      (bytes : List ℕ) (thor : Thor)
      → o.fopen_output thor.output_file_str ≡ true
      → server_flush_transaction o bytes thor
        ≡ returned (record thor { output_open = true; output_file = thor.output_file ++ bytes })
  unfolding server_flush_transaction
  flush_lem bytes thor h =
      ap
        (λ b.
          check b
          >> returned (record thor { output_open = true; output_file = thor.output_file ++ bytes }))
        (opens thor.output_open thor.output_file_str h)

  accept_lem :
      (text bytes bytes' : List ℕ) (thor : Thor)
      → Able o thor
      → length text < 900
      → accept o text bytes bytes' thor ≡ returned (frame text, took bytes bytes' thor)
  unfolding accept
  accept_lem text bytes bytes' thor able short =
      rw
        (
          printed_lem (frame text) (omega (arith, short, length-frame text)),
          flush_lem bytes thor able.opens,
          searched-scanned bytes' thor.substring_context able.searches,
        )
        refl

  module _ (n : ℕ) (text : List ℕ) (thor : Thor) (segment later last : List ℕ) (offset len : ℕ)
      (able : Able o thor) where
    pub server_socket_send_reads :
        (bytes bytes' bytes'' : List ℕ) {parsed : Parsed}
        → length text < 900
        → parse_data o.atoi text ≡ returned parsed
        → parsed.offset ≡ pos offset
        → parsed.len ≡ pos len
        → load offset len segment ≡ returned bytes
        → load offset len later ≡ returned bytes'
        → load offset len last ≡ returned bytes''
        → server_socket_send o n text thor segment later last ≡ (
            if strcmp_equal (hex (o.md5 bytes)) parsed.md5
            then returned (frame text, took bytes' bytes'' thor)
            else returned (frame loki_warning, thor))
    unfolding server_socket_send index get_buffer
    server_socket_send_reads bytes bytes' bytes'' {parsed} short p at size checked written found =
        let place : thor.asgard.data_ptr + offset - thor.asgard.data_ptr ≡ offset = omega arith in
        rw
          (
            p,
            at,
            size,
            place,
            checked,
            written,
            found,
            does_string_intact_lem o.md5 doc.md5-length doc.md5-bytes bytes (o.sd n) parsed.md5
                (doc.length-sd n),
            accept_lem text bytes' bytes'' thor able short,
            refuse_lem thor,
          )
          refl

    -- A text of fewer than 900 characters that parses, with the places of bytes within the
    -- segment, where the outside does what is documented, the output file can be opened, and the
    -- search, if there is one, is for a pattern that is not empty: if these bytes have the digest of
    -- the text, the consumer appends the bytes that stand there later to the output file, searches
    -- those that stand there last, and answers with the text; otherwise it answers with the warning,
    -- and changes nothing.
    pub server_socket_send_lem :
        {parsed : Parsed}
        → length text < 900
        → parse_data o.atoi text ≡ returned parsed
        → parsed.offset ≡ pos offset
        → parsed.len ≡ pos len
        → offset + len ≤ length segment
        → length later ≡ length segment
        → length last ≡ length segment
        → server_socket_send o n text thor segment later last ≡ (
            if strcmp_equal (hex (o.md5 (take len (drop offset segment)))) parsed.md5
            then returned
                (frame text, took (take len (drop offset later)) (take len (drop offset last)) thor)
            else returned (frame loki_warning, thor))
    unfolding load
    server_socket_send_lem {parsed} short p at size inside same same' =
        let fits : leb (offset + len) (length segment) ≡ true = ground arith in
        let fits' : leb (offset + len) (length later) ≡ true =
          (let le : offset + len ≤ length later = omega (arith, inside, same) in ground arith) in
        let fits'' : leb (offset + len) (length last) ≡ true =
          (let le : offset + len ≤ length last = omega (arith, inside, same') in ground arith) in
        server_socket_send_reads (take len (drop offset segment)) (take len (drop offset later))
          (take len (drop offset last)) {parsed = parsed} short p at size (rw fits refl)
          (rw fits' refl) (rw fits'' refl)

  module _ (n : ℕ) (text : List ℕ) (thor : Thor) (segment later last : List ℕ)
      (offset len : ℕ) where
    -- With a text that parses, and whose places are not within the segment, server_socket_send
    -- reads outside it.
    server_socket_send_overrun :
        {parsed : Parsed}
        → parse_data o.atoi text ≡ returned parsed
        → parsed.offset ≡ pos offset
        → parsed.len ≡ pos len
        → length segment < offset + len
        → server_socket_send o n text thor segment later last ≡ undefined
    unfolding server_socket_send index get_buffer load
    server_socket_send_overrun {parsed} p at size outside =
        let place : thor.asgard.data_ptr + offset - thor.asgard.data_ptr ≡ offset = omega arith in
        let past : leb (offset + len) (length segment) ≡ false = ground arith in
        rw (p, at, size, place, past) refl
