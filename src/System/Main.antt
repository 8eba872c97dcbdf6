-- ===== src/System/Main.antt =====
-- The two programs from the start: with a configuration that both accept, and a segment that both
-- attach, the file arrives.
pub mod Whole
mod Tests
use spsc.Prelude.{
  ℕ, suc, ◌==◌, ◌+◌, ◌*◌, ◌≤◌, ◌<◌, ◌≡◌, ◌≢◌, ◌⊎◌, inl, inr, refl, ap, sym, ◌∙◌, arith, true, false,
  none, some, Bool, Option, List, [], ◌∷◌, ◌++◌, All, length, pos, pos_part, if◌then◌else◌,
  returned, check, given, ◌>>◌,
}
use spsc.Outside.{Outside, Documented}
use spsc.Asgard.{
  Asgard, Ms, MRole, m_jane, m_thor, SharedMemory, init_memory, minit, asgard_init, buffer_init,
  zeroed_asgard,
}
use spsc.Asgard.Pools.{Holds, numbers}
use spsc.Asgard.Init.{asgard_init-Holds}
use spsc.Hash.{big_enough}
use spsc.Substring.{Sstring, sstring_init}
use spsc.Substring.Sound.{sstring_init-Searching}
use spsc.Config.{Section}
use spsc.Config.Read.{JaneConfig, ThorConfig, asgard_config_read, eq_ℤ}
use spsc.Config.Checks.{asgard_config_read_accepts}
use spsc.Jane.{Jane, set_input_file, set_ack, opened, take_back}
use spsc.Jane.Start as Producer
use spsc.Thor.{Thor}
use spsc.Thor.Replies.{scanned, CanSearch, Able}
use spsc.Thor.Start as Consumer
use spsc.System.{World, Event, run}
use spsc.System.Ready.{Start, Ready}
use spsc.System.Transfer.{IsHonest, run_transfers}

-- the configuration: `suc m` buffers, of which `u` are used at once, a file that can be
-- read, one that can be opened for the output, and no empty pattern
pub record Setting (o : Outside) (sections : List Section) (m u : ℕ) (file : List ℕ) : Type 0 where
  pub jane_config : JaneConfig
  pub thor_config : ThorConfig
  pub accepted : asgard_config_read o.atoi sections ≡ returned (true, (jane_config, thor_config))
  pub buffers : jane_config.buffers ≡ pos (suc m)
  pub use_buffers : jane_config.use_buffers ≡ pos u
  pub name : List ℕ
  pub named : jane_config.input_text_file ≡ some name
  pub opens : o.fopen name ≡ some file
  pub output_name : List ℕ
  pub output_named : thor_config.output_text_file ≡ some output_name
  pub writes : o.fopen_output (some output_name) ≡ true
  pub some_pattern : thor_config.pattern ≢ some []
  pub pos_u : 0 < u
  pub fits_u : u ≤ suc m

-- the segment of that size, with the key of memory.c
pub record Attaches (os : SharedMemory) (m : ℕ) : Type 0 where
  pub id : ℕ
  pub shm : ℕ
  pub shmget : os.shmget 5678 (suc m * 1024 + 1024) ≡ some id
  pub shmat : os.shmat id ≡ some shm

-- what the consumer searches with at the start, when the search is off and when it is on
abbrev context_of : Bool → Option (List ℕ) → Option Sstring
context_of true pattern = none
context_of false none = none
context_of false (some pattern) = some (sstring_init pattern)

abbrev pub context : ThorConfig → Option Sstring
context thor_config = context_of (eq_ℤ (pos 0) thor_config.do_search) thor_config.pattern

context_of-CanSearch :
    (off : Bool) (pattern : Option (List ℕ))
    → pattern ≢ some []
    → CanSearch (context_of off pattern)
context_of-CanSearch true pattern h = tt
context_of-CanSearch false none h = tt
context_of-CanSearch false (some []) h = absurd (h refl)
context_of-CanSearch false (some (c ∷ cs)) h = sstring_init-Searching (c ∷ cs) (omega arith)

started_lem :
    (off : Bool) (pattern : Option (List ℕ))
    → (off ≡ true) ⊎ (pattern ≢ none)
    → (if off then returned none else Consumer.started pattern) ≡ returned (context_of off pattern)
started_lem true pattern h = refl
started_lem false (some pattern) h = refl
started_lem false none (inl e) = absurd (ground arith)
started_lem false none (inr ne) = absurd (ne refl)

abbrev memorys : ℕ → Ms
memorys m = record {
  sz = suc m * 1024 + 1024;
  pattern = 0xdead_beef;
  key = 5678;
  shm = 0;
  shmid = 0;
}

init_memory_lem : (m : ℕ) → m < 2097150 → init_memory (suc m) ≡ returned (memorys m)
unfolding init_memory
init_memory_lem m h = ground arith

minit_maps :
    (os : SharedMemory) (ms : Ms) (id shm : ℕ)
    → os.shmget ms.key ms.sz ≡ some id
    → os.shmat id ≡ some shm
    → minit os ms ≡ (0, record ms { shmid = id; shm = shm })
unfolding minit
minit_maps os ms id shm e e' = rw (e, e', minit)

module _ (os : SharedMemory) (m : ℕ) (at : Attaches os m) where
  abbrev mapped : Ms
  mapped = record (memorys m) { shmid = at.id; shm = at.shm }

  minit_lem : minit os (memorys m) ≡ (0, mapped)
  minit_lem = minit_maps os (memorys m) at.id at.shm at.shmget at.shmat

  abbrev attached : Asgard
  attached = record (zeroed_asgard mapped) { data_ptr = at.shm }

  asgard_init_lem :
      (role : MRole)
      → asgard_init os (memorys m) role
        ≡ returned (elim role [ m_jane ↦ buffer_init attached | m_thor ↦ attached ])
  unfolding asgard_init
  asgard_init_lem role =
      ap
        (λ (r : ℕ × Ms).
          check (r.0 == 0)
          >> returned (elim role [
            | m_jane ↦ buffer_init (record (zeroed_asgard r.1) { data_ptr = r.1.shm })
            | m_thor ↦ record (zeroed_asgard r.1) { data_ptr = r.1.shm }
          ]))
        minit_lem

module _ (o : Outside) (sections : List Section) (m u : ℕ) (file : List ℕ)
    (set : Setting o sections m u file) where
  open set use {jane_config, thor_config, accepted}

  few : m < 102399
  few =
      let (((n, e, low, high), same), rest) =
        asgard_config_read_accepts o.atoi sections jane_config thor_config accepted in
      omega (arith, ap pos_part (sym e ∙ set.buffers), high)

  init_jane : init_memory (pos_part jane_config.buffers) ≡ returned (memorys m)
  init_jane =
      ap (λ b. init_memory (pos_part b)) set.buffers ∙ init_memory_lem m (omega (arith, few))

  init_thor : init_memory (pos_part thor_config.buffers) ≡ returned (memorys m)
  init_thor =
      let (((n, e, low, high), same), rest) =
        asgard_config_read_accepts o.atoi sections jane_config thor_config accepted in
      ap (λ b. init_memory (pos_part b)) same ∙ init_jane

  module _ (os : SharedMemory) (at : Attaches os m) where
    -- the producer as `main` leaves it
    abbrev jane : List ℕ → Jane
    jane md5 = record (Producer.zeroed_jane md5) {
      asgard = buffer_init (attached os m at);
      input_file = some set.name;
    }

    main_jane : (md5 : List ℕ) → Producer.main o os sections md5 ≡ returned (jane md5)
    unfolding Producer.main set_input_file set_ack
    main_jane md5 = rw (accepted, set.named, init_jane, asgard_init_lem os m at m_jane) refl

    jane-Holds : Holds (buffer_init (attached os m at)) (numbers (suc m) 1) []
    jane-Holds =
        (asgard_init-Holds os (suc m) {ms = memorys m} (init_memory_lem m (omega (arith, few)))
          (asgard_init_lem os m at m_jane)).0

    start : Documented o (suc m) → Start o m (buffer_init (attached os m at)) u
    start doc = record {
      doc = doc;
      holds = jane-Holds;
      pos_u = set.pos_u;
      fits_u = set.fits_u;
      few = omega (arith, few);
    }

    jane-Ready :
        (doc : Documented o (suc m)) (md5 segment : List ℕ)
        → length md5 ≡ big_enough
        → length segment ≡ (suc m + 1) * 1024
        → Ready o m (buffer_init (attached os m at)) u (start doc) 0 (jane md5) segment file
    jane-Ready doc md5 segment h h' = record {
      free = unfold take_back in refl;
      name = set.name;
      file = refl;
      position = unfold opened in (ap given set.opens);
      md5_size = h;
      fine = refl;
      no_ack = refl;
      segment_size = h';
    }

    search_lem :
        (if eq_ℤ (pos 0) thor_config.do_search
          then returned none
          else Consumer.started thor_config.pattern)
        ≡ returned (context thor_config)
    search_lem =
        let accepts = asgard_config_read_accepts o.atoi sections jane_config thor_config accepted in
        started_lem (eq_ℤ (pos 0) thor_config.do_search) thor_config.pattern
          (elim (accepts.1.0) [ inl off ↦ inl (ap (eq_ℤ (pos 0)) off) | inr on ↦ inr (on.1) ])

    abbrev thor : List ℕ → Thor
    thor before = record {
      asgard = attached os m at;
      output_file_str = thor_config.output_text_file;
      output_open = false;
      output_file = before;
      substring_context = context thor_config;
    }

    main_thor : (before : List ℕ) → Consumer.main o os sections before ≡ returned (thor before)
    unfolding Consumer.main
    main_thor before = rw (accepted, init_thor, asgard_init_lem os m at m_thor, search_lem) refl

    context-CanSearch : CanSearch (context thor_config)
    context-CanSearch =
        context_of-CanSearch (eq_ℤ (pos 0) thor_config.do_search) thor_config.pattern
          set.some_pattern

    thor-Able : (before : List ℕ) → Able o (thor before)
    thor-Able before = record {
      opens = ap o.fopen_output set.output_named ∙ set.writes;
      searches = context-CanSearch;
    }

-- From a configuration that both programs accept and that uses at least one buffer at once and no
-- more than there are, with a segment that both attach, a file that can be read and one that can be
-- written, and a pattern, if there is one, that is not empty, where the outside does what is documented: both programs start. With more rounds in which both messages
-- pass, in pieces, and no one writes into the segment, than the file has bytes, the producer's
-- loop ends, the file stands at the end of the output file, and it has been searched.
pub main_transfers :
    (o : Outside) (sections : List Section) (m u : ℕ) (file : List ℕ)
    (set : Setting o sections m u file) (os os' : SharedMemory)
    → Attaches os m
    → Attaches os' m
    → Documented o (suc m)
    → (md5 segment before : List ℕ) → length md5 ≡ big_enough
    → length segment ≡ (suc m + 1) * 1024
    → (events : List Event) → length file < length events
    → All IsHonest events
    → (jane : Jane) × (thor : Thor) × (w : World) × (Producer.main o os sections md5
        ≡ returned jane)
      × (Consumer.main o os' sections before ≡ returned thor)
      × (run o u events 0 (record { jane = jane; thor = thor; segment = segment })
          ≡ returned (false, w))
      × (w.thor.output_file ≡ before ++ file)
      × (w.thor.substring_context ≡ scanned file (context set.thor_config))
main_transfers o sections m u file set os os' at at' doc md5 segment before size size' events more
      honest =
    let j = jane o sections m u file set os at md5 in
    let t = thor o sections m u file set os' at' before in
    let w : World = record { jane = j; thor = t; segment = segment } in
    let (w', e, out, ctx) =
      run_transfers o m (buffer_init (attached os m at)) u (start o sections m u file set os at doc)
        events 0 w file (jane-Ready o sections m u file set os at doc md5 segment size size') more
        (thor-Able o sections m u file set os' at' before) honest in
    (
      j,
      t,
      w',
      main_jane o sections m u file set os at md5,
      main_thor o sections m u file set os' at' before,
      e,
      out,
      ctx,
    )
