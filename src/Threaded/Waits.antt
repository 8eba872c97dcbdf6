-- ===== src/Threaded/Waits.antt =====
-- The two threads of jane.c, where the file has something to read.
use spsc.Prelude.{
  ◌⊎◌, inl, inr, ℕ, suc, ◌+◌, ◌*◌, ◌≤◌, ◌<◌, ◌≡◌, refl, arith, true, false, none, some, List, [],
  ◌∷◌, length, length-take, returned, ◌>>=◌, take,
}
use spsc.Outside.{Outside}
use spsc.Asgard.{Asgard}
use spsc.Queue.{Queue, q_init, q_full, q_empty}
use spsc.Lock.{Place, outside, testing, spinning, inside, turn}
use spsc.Lock.Exclusion.{is_inside, turn_lem}
use spsc.Jane.{Jane, opened}
use spsc.System.Ready.{Start, allocated, count, count_lem}
use spsc.System.Prepare.{read, stored, read_lem}
use spsc.Threaded.{
  reading, gone, asking, Threads, Turn, reads, asks, started, parallel_buffers, reader_waits,
  client_waits, client_turn, keep_buffers_ready, reader_turn, run,
}

-- The client waits, and the ring is empty: the reader has not read yet, or it has returned and keeps
-- the lock.
abbrev pub Waits : Jane → List ℕ → Threads → Type 0
Waits jane segment w =
    (c : Place) × (w.client ≡ asking c)
    × (q_empty w.q ≡ true)
    × (((p : Place) × (w.reader ≡ reading p) × (w.jane ≡ jane) × (w.segment ≡ segment))
        ⊎ ((w.reader ≡ gone) × (w.qlock ≡ 1) × (is_inside c ≡ 0)))

module _ (o : Outside) (m : ℕ) (idle : Asgard) (u : ℕ) (st : Start o m idle u) where
  open st use {pos_u}

  module _ (jane : Jane) (segment unread name : List ℕ) (llen : ℕ) (at : jane.asgard ≡ idle)
      (file : jane.input_file ≡ some name)
      (position : opened o name jane.input_file_ptr ≡ returned unread) (left : 0 < length unread)
      (size : length segment ≡ (suc m + 1) * 1024) where
    module _ (q : Queue) (room : q_full q ≡ false) (empty : q_empty q ≡ true) where
      abbrev fresh : Place → Place → ℕ → Threads
      fresh p c l = record {
        qlock = l;
        q = q;
        jane = jane;
        segment = segment;
        llen = llen;
        reader = reading p;
        client = asking c;
      }

      abbrev over : Jane → List ℕ → ℕ → Place → Threads
      over jane' segment' llen' c = record {
        qlock = 1;
        q = q;
        jane = jane';
        segment = segment';
        llen = llen';
        reader = gone;
        client = asking c;
      }

      -- the lock is never free again
      run-over :
          (schedule : List Turn) (n : ℕ) (jane' : Jane) (segment' : List ℕ) (llen' : ℕ) (c : Place)
          → is_inside c ≡ 0
          → (c' : Place) × (run o u schedule n (over jane' segment' llen' c)
              ≡ returned (over jane' segment' llen' c'))
            × (is_inside c' ≡ 0)
      unfolding run reader_turn client_turn turn
      run-over [] n jane' segment' llen' c h = (c, refl, h)
      run-over (reads ∷ schedule) n jane' segment' llen' c h =
          run-over schedule (suc n) jane' segment' llen' c h
      run-over (asks ∷ schedule) n jane' segment' llen' outside h =
          run-over schedule (suc n) jane' segment' llen' testing refl
      run-over (asks ∷ schedule) n jane' segment' llen' testing h =
          run-over schedule (suc n) jane' segment' llen' spinning refl
      run-over (asks ∷ schedule) n jane' segment' llen' spinning h =
          run-over schedule (suc n) jane' segment' llen' spinning refl
      run-over (asks ∷ schedule) n jane' segment' llen' inside h = absurd (omega (arith, h))

      -- the reader's turn with the lock
      keeps :
          (n : ℕ) (c : Place)
          → (jane' : Jane) × (segment' : List ℕ) × (llen' : ℕ) × (reader_turn o u n
                (reading inside)
                (fresh inside c 1)
              ≡ returned (over jane' segment' llen' c))
      unfolding reader_turn keep_buffers_ready read
      keeps n c =
          let (s, ran, place, back) = allocated o m idle u st n 0 in
          let j : Jane = record jane { asgard = s; llen = llen } in
          let some_left : 0 < length (take (count o m idle u st) unread) = omega (
            arith,
            length-take (count o m idle u st) unread,
            count_lem o m idle u st,
            left,
            pos_u,
          ) in
          let e = read_lem o m idle u st j segment unread name place file position some_left size in
          (
            record (read o m idle u st j segment unread name place file position) {
              llen = jane.llen;
            },
            stored o m idle u st j segment unread name place file position,
            length (take (count o m idle u st) unread),
            rw (room, at, ran, e) refl,
          )

      -- from any places of the two threads that fit the lock
      Goes : List Turn → ℕ → Type 0
      Goes schedule n =
          (p c : Place) (l : ℕ)
          → is_inside p + is_inside c ≡ l
          → l ≤ 1
          → (w : Threads) × (run o u schedule n (fresh p c l) ≡ returned w) × Waits jane segment w

      -- an action of the reader on the lock, and one of the client
      reader_acts :
          (schedule : List Turn) (n : ℕ)
          → Goes schedule (suc n)
          → (p c : Place) (l : ℕ) → is_inside p + is_inside c ≡ l
          → l ≤ 1
          → (w : Threads) × (run o u schedule (suc n) (reader_waits p (fresh p c l)) ≡ returned w)
            × Waits jane segment w
      unfolding Goes
      reader_acts schedule n next p c l h le =
          let t = turn_lem p l le (omega (arith, h)) in
          next ((turn p l).0) c ((turn p l).1) (omega (arith, t.0, h)) (t.1)

      client_acts :
          (schedule : List Turn) (n : ℕ)
          → Goes schedule (suc n)
          → (p c : Place) (l : ℕ) → is_inside p + is_inside c ≡ l
          → l ≤ 1
          → (w : Threads) × (run o u schedule (suc n) (client_waits c (fresh p c l)) ≡ returned w)
            × Waits jane segment w
      unfolding Goes
      client_acts schedule n next p c l h le =
          let t = turn_lem c l le (omega (arith, h)) in
          next p ((turn c l).0) ((turn c l).1) (omega (arith, t.0, h)) (t.1)

      reader_ends :
          (schedule : List Turn) (n : ℕ) (c : Place) (l : ℕ)
          → l ≡ 1
          → is_inside c ≡ 0
          → (w : Threads) × ((reader_turn o u n (reading inside) (fresh inside c l)
                >>= run o u schedule (suc n))
              ≡ returned w)
            × Waits jane segment w
      reader_ends schedule n c l held free =
          let (jane', segment', llen', e) = keeps n c in
          let (c', e', out) = run-over schedule (suc n) jane' segment' llen' c free in
          (over jane' segment' llen' c', rw (held, e) e', (c', refl, empty, inr (refl, refl, out)))

      run-Goes : (schedule : List Turn) (n : ℕ) → Goes schedule n
      unfolding Goes run reader_turn client_turn
      run-Goes [] n p c l h le = (fresh p c l, refl, (c, refl, empty, inl (p, refl, refl, refl)))
      run-Goes (reads ∷ schedule) n outside c l h le =
          reader_acts schedule n (run-Goes schedule (suc n)) outside c l h le
      run-Goes (reads ∷ schedule) n testing c l h le =
          reader_acts schedule n (run-Goes schedule (suc n)) testing c l h le
      run-Goes (reads ∷ schedule) n spinning c l h le =
          reader_acts schedule n (run-Goes schedule (suc n)) spinning c l h le
      run-Goes (reads ∷ schedule) n inside c l h le =
          reader_ends schedule n c l (omega (arith, h, le)) (omega (arith, h, le))
      run-Goes (asks ∷ schedule) n p outside l h le =
          client_acts schedule n (run-Goes schedule (suc n)) p outside l h le
      run-Goes (asks ∷ schedule) n p testing l h le =
          client_acts schedule n (run-Goes schedule (suc n)) p testing l h le
      run-Goes (asks ∷ schedule) n p spinning l h le =
          client_acts schedule n (run-Goes schedule (suc n)) p spinning l h le
      run-Goes (asks ∷ schedule) n p inside l h le =
          rw empty (client_acts schedule n (run-Goes schedule (suc n)) p inside l h le)

    first : Queue
    unfolding q_init
    first = record { max_size = parallel_buffers; curr_size = 0; head = 0; tail = 0; e = none ∷ [] }

    -- jane.c with threaded, all of the segment's buffers free, at most 2^20, of which at least one
    -- is used at once and no more than there are, where the outside does what is documented, and a
    -- file with something to read: whatever the order in which the two threads act, no assertion
    -- fails and nothing is undefined, the call of get_ready_buffer does not return, and nothing
    -- gets into the ring. The thread that reads has read nothing yet, or it has returned and the
    -- lock is held.
    pub run-Waits :
        (schedule : List Turn)
        → (w : Threads) × ((started jane segment llen >>= run o u schedule 0) ≡ returned w)
          × Waits jane segment w
    unfolding started q_init Goes first q_full q_empty
    run-Waits schedule =
        run-Goes first refl refl schedule 0 outside outside 0 (omega arith) (omega arith)
