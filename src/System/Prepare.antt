-- ===== src/System/Prepare.antt =====
-- What `prepare` of jane.c makes of the producer before a round.
use spsc.Prelude.{
  Bool, take-nil, ap, sym, ℕ, suc, ◌+◌, ◌-◌, ◌*◌, ◌≤◌, ◌<◌, ◌≡◌, refl, ◌∙◌, arith, true, false,
  some, List, [], ◌∷◌, ◌++◌, length, take, drop, length-take, length-append, length-drop, returned,
  is_empty,
}
use spsc.Outside.{Outside}
use spsc.Asgard.{Asgard, shm_dealloc}
use spsc.Segment.{load}
use spsc.Segment.Slices.{written, length-written, store_lem, load-written, load_lem}
use spsc.Hash.{big_enough}
use spsc.Hash.Print.{hex}
use spsc.Hash.Intact.{readable_hash_lem, c_string-hex}
use spsc.Jane.{Jane, acquire, refill, prepare, take_back, opened, read_input_file}
use spsc.Hash.Print.{length-hex}
use spsc.System.Ready.{Start, Ready, Sending, buffer, count, count_lem, acquired}

module _ (o : Outside) (m : ℕ) (idle : Asgard) (u : ℕ) (st : Start o m idle u) where
  open st use {doc, pos_u, fits_u}

  not_empty : (xs : List ℕ) → 0 < length xs → is_empty xs ≡ false
  not_empty [] h = absurd (omega (arith, h))
  not_empty (x ∷ xs) h = refl

  module _ (jane : Jane) (segment unread name : List ℕ) (at : jane.asgard.data_ptr ≡ idle.data_ptr)
      (file : jane.input_file ≡ some name)
      (position : opened o name jane.input_file_ptr ≡ returned unread) where
    refill_end :
        (early : List ℕ → List ℕ)
        → unread ≡ []
        → (jane' : Jane) × (refill o u early (buffer o m idle u st) jane segment
            ≡ returned (false, jane', segment))
    unfolding refill read_input_file
    refill_end early none_left = (
      record jane { input_file_ptr = some (drop (count o m idle u st) unread) },
      rw (file, position, none_left, take-nil {A = ℕ} (count o m idle u st)) refl,
    )

    unfoldable pub read : Jane
    read = record jane {
      input_file_ptr = some (drop (count o m idle u st) unread);
      llen = length (take (count o m idle u st) unread);
    }

    pub stored : List ℕ
    stored =
        written (1024 + length (take (count o m idle u st) unread)) (0 ∷ [])
          (written 1024 (take (count o m idle u st) unread) segment)

    pub read_lem :
        0 < length (take (count o m idle u st) unread)
        → length segment ≡ (suc m + 1) * 1024
        → read_input_file o u (buffer o m idle u st) jane segment ≡ returned (true, read, stored)
    unfolding read_input_file read stored
    read_lem left size =
        let chunk = take (count o m idle u st) unread in
        let short : length chunk ≤ u * 1024 - 1 =
          omega (arith, count_lem o m idle u st, length-take (count o m idle u st) unread) in
        let place : (buffer o m idle u st) - jane.asgard.data_ptr ≡ 1024 = omega (arith, at) in
        let first = written 1024 chunk segment in
        let first_size : length first ≡ length segment =
          length-written 1024 chunk segment (omega (arith, short, fits_u, size, pos_u)) in
        rw
          (
            file,
            position,
            not_empty chunk left,
            place,
            store_lem 1024 chunk segment (omega (arith, short, fits_u, size, pos_u)),
            store_lem (1024 + length chunk) (0 ∷ []) first
                (omega (arith, short, fits_u, size, pos_u, first_size)),
          )
          refl

    load-stored :
        length segment ≡ (suc m + 1) * 1024
        → load 1024 (length (take (count o m idle u st) unread)) stored
          ≡ returned (take (count o m idle u st) unread)
    unfolding stored
    load-stored size = load-written 1024 (take (count o m idle u st) unread) segment (
        omega (
          arith,
          count_lem o m idle u st,
          length-take (count o m idle u st) unread,
          fits_u,
          size,
          pos_u,
        ))

    length-stored : length segment ≡ (suc m + 1) * 1024 → length stored ≡ (suc m + 1) * 1024
    unfolding stored
    length-stored size =
        let chunk = take (count o m idle u st) unread in
        let first = written 1024 chunk segment in
        let fits : 1024 + length chunk + 1 ≤ length segment = omega (
          arith,
          count_lem o m idle u st,
          length-take (count o m idle u st) unread,
          fits_u,
          size,
          pos_u,
        ) in
        let first_size : length first ≡ length segment =
          length-written 1024 chunk segment (omega (arith, fits)) in
        length-written (1024 + length chunk) (0 ∷ []) first (omega (arith, fits, first_size))
        ∙ first_size
        ∙ size

    -- the producer with the digest of the bytes that it then finds
    pub hashed : List ℕ → Jane
    unfolding read
    hashed bytes = record read {
      md5 = hex (o.md5 bytes) ++ 0 ∷ drop (suc (2 * length (o.md5 bytes))) jane.md5;
    }

    refill_lem :
        (early : List ℕ → List ℕ) (bytes : List ℕ)
        → load 1024 (length (take (count o m idle u st) unread)) (early stored) ≡ returned bytes
        → 0 < length (take (count o m idle u st) unread)
        → length segment ≡ (suc m + 1) * 1024
        → length jane.md5 ≡ big_enough
        → refill o u early (buffer o m idle u st) jane segment
          ≡ returned (true, hashed bytes, early stored)
    unfolding refill hashed read
    refill_lem early bytes held left size md5_size =
        let place : (buffer o m idle u st) - jane.asgard.data_ptr ≡ 1024 = omega (arith, at) in
        rw
          (
            read_lem left size,
            place,
            held,
            readable_hash_lem o.md5 doc.md5-length doc.md5-bytes bytes jane.md5 (big_enough - 1)
                (omega (arith, md5_size)) (omega arith),
          )
          refl

  prepare-refill :
      (n : ℕ) (jane j j' : Jane) (segment segment' : List ℕ) (more : Bool) (early : List ℕ → List ℕ)
      → acquire o n u jane ≡ returned ((buffer o m idle u st), j)
      → j.failed ≡ false
      → refill o u early (buffer o m idle u st) j segment ≡ returned (more, j', segment')
      → prepare o n u early jane segment ≡ returned (more, (buffer o m idle u st), j', segment')
  unfolding prepare
  prepare-refill n jane j j' segment segment' more early run fine run' = simp (run, fine, run')

  module _ (n : ℕ) (jane : Jane) (segment unread : List ℕ)
      (r : Ready o m idle u st n jane segment unread) where
    got :
        (s : Asgard) × (acquire o n u jane
          ≡ returned (
            (buffer o m idle u st),
            record jane { asgard = s; shm_buffer = some (buffer o m idle u st) },
          ))
        × (s.data_ptr ≡ idle.data_ptr)
        × (shm_dealloc (o.stack (2 * suc n)) u (buffer o m idle u st) s ≡ returned idle)
    got = acquired o m idle u st n jane r.free

    with_buffer : Jane
    with_buffer = record jane { asgard = got.0; shm_buffer = some (buffer o m idle u st) }

    -- At the end of the file there is nothing to send.
    pub prepare_end :
        (early : List ℕ → List ℕ)
        → unread ≡ []
        → (jane' : Jane) × (prepare o n u early jane segment
            ≡ returned (false, (buffer o m idle u st), jane', segment))
    unfolding with_buffer
    prepare_end early none_left =
        let (jane', run) =
          refill_end with_buffer segment unread r.name got.2 r.file r.position early none_left in
        (
          jane',
          prepare-refill n jane with_buffer jane' segment segment false early got.1 r.fine run,
        )

    -- the segment with the bytes in it
    read_into : List ℕ
    unfolding with_buffer
    read_into = stored with_buffer segment unread r.name got.2 r.file r.position

    filled : 0 < length unread → 0 < length (take (count o m idle u st) unread)
    filled left =
        omega
          (arith, length-take (count o m idle u st) unread, count_lem o m idle u st, left, pos_u)

    -- What is about to be sent is `bytes`, which stand in the buffer when the digest is made.
    abbrev pub Prepared : (List ℕ → List ℕ) → List ℕ → Type 0
    Prepared early bytes =
        (jane' : Jane) × (segment' : List ℕ) × (prepare o n u early jane segment
          ≡ returned (true, (buffer o m idle u st), jane', segment'))
        × Sending o m idle u st n jane' segment' bytes
        × (load 1024 (length bytes) segment' ≡ returned bytes)
        × (jane'.failed ≡ false)
        × (jane'.input_file ≡ some r.name)
        × (jane'.input_file_ptr ≡ some (drop (count o m idle u st) unread))

    prepare_bytes :
        (early : List ℕ → List ℕ) (bytes : List ℕ)
        → 0 < length unread
        → length (early read_into) ≡ (suc m + 1) * 1024
        → load 1024 (length (take (count o m idle u st) unread)) (early read_into) ≡ returned bytes
        → length bytes ≡ length (take (count o m idle u st) unread)
        → Prepared early bytes
    unfolding with_buffer hashed read read_into
    prepare_bytes early bytes left size held length-bytes =
        let chunk = take (count o m idle u st) unread in
        let j = hashed with_buffer segment unread r.name got.2 r.file r.position bytes in
        let run =
          refill_lem with_buffer segment unread r.name got.2 r.file r.position early bytes held
            (filled left) r.segment_size r.md5_size in
        (
          j,
          early read_into,
          prepare-refill n jane with_buffer j segment (early read_into) true early got.1 r.fine run,
          record {
            back = unfold take_back in got.3;
            data_ptr = got.2;
            filled = omega (arith, filled left, length-bytes);
            small = omega (
              arith,
              length-bytes,
              length-take (count o m idle u st) unread,
              count_lem o m idle u st,
              pos_u,
            );
            segment_size = size;
            llen = sym length-bytes;
            digest = c_string-hex (o.md5 bytes) (drop (suc (2 * length (o.md5 bytes))) jane.md5);
            md5_size = omega (
              arith,
              length-append (hex (o.md5 bytes))
                  (0 ∷ drop (suc (2 * length (o.md5 bytes))) jane.md5),
              length-drop (suc (2 * length (o.md5 bytes))) jane.md5,
              length-hex (o.md5 bytes),
              doc.md5-length bytes,
              r.md5_size,
            );
            no_ack = r.no_ack;
          },
          ap (λ k. load 1024 k (early read_into)) length-bytes ∙ held,
          r.fine,
          r.file,
          refl,
        )

    length-read_into : length read_into ≡ (suc m + 1) * 1024
    unfolding read_into with_buffer
    length-read_into =
        length-stored with_buffer segment unread r.name got.2 r.file r.position r.segment_size

    -- With no one who writes in between it is the next bytes of the file.
    pub prepare_chunk :
        0 < length unread
        → (early : List ℕ → List ℕ) → ((s : List ℕ) → early s ≡ s)
        → Prepared early (take (count o m idle u st) unread)
    unfolding with_buffer read_into
    prepare_chunk left early same =
        prepare_bytes early (take (count o m idle u st) unread) left
          (ap length (same read_into) ∙ length-read_into)
          (ap (load 1024 (length (take (count o m idle u st) unread))) (same read_into)
            ∙ load-stored with_buffer segment unread r.name got.2 r.file r.position r.segment_size)
          refl

    -- Otherwise it is as many bytes.
    pub prepare_early :
        0 < length unread
        → (early : List ℕ → List ℕ) → ((s : List ℕ) → length (early s) ≡ length s)
        → (bytes : List ℕ) × Prepared early bytes
    prepare_early left early same =
        let chunk = take (count o m idle u st) unread in
        let size : length (early read_into) ≡ (suc m + 1) * 1024 =
          same read_into ∙ length-read_into in
        let (bytes, held, length-bytes) = load_lem 1024 (length chunk) (early read_into) (
          omega (
            arith,
            size,
            length-take (count o m idle u st) unread,
            count_lem o m idle u st,
            fits_u,
            pos_u,
          )) in
        (bytes, prepare_bytes early bytes left size held length-bytes)
