-- ===== src/Substring/Tests.antt =====
-- Runs of substring.c, among them the program's own: "mad" in "madgaimad", given twice.
use spsc.Prelude.{codes, returned, undefined, ◌>>=◌}
use spsc.Examples.{print_width}
use spsc.Substring.Report.{print_locations, report, print_sstring_debug, program}
use spsc.Prelude.{ℕ, suc, ◌+◌, ◌<◌, ◌≤◌, ◌≡◌, refl, arith, List, [], ◌∷◌, ◌++◌, get_or, take}
use spsc.Substring.{Sstring, sstring_init, step, matched, note, sstring_compute}
use spsc.Substring.Scan.{sstring_compute-append}
use spsc.Substring.Scanned.{OccursAt}
use spsc.Substring.Sound.{sstring_compute_sound}
use spsc.Substring.Complete.{sstring_compute_finds, sstring_compute_misses}

abbrev mad : List ℕ
mad = 109 ∷ 97 ∷ 100 ∷ []

abbrev madgaimad : List ℕ
madgaimad = 109 ∷ 97 ∷ 100 ∷ 103 ∷ 97 ∷ 105 ∷ 109 ∷ 97 ∷ 100 ∷ []

mad_places :
    (sstring_compute (sstring_init mad) (madgaimad ++ madgaimad) >>= λ ss.
    returned (take 4 ss.locations))
    ≡ returned (0 ∷ 6 ∷ 9 ∷ 15 ∷ [])
unfolding sstring_compute sstring_init step matched note
mad_places = refl

sstring_compute-append_example :
    sstring_compute (sstring_init mad) (madgaimad ++ madgaimad)
    ≡ (sstring_compute (sstring_init mad) madgaimad >>= λ s. sstring_compute s madgaimad)
sstring_compute-append_example = sstring_compute-append madgaimad madgaimad (sstring_init mad)

-- An empty pattern: a zero is read as its end, and the next read is behind it.
empty_pattern : sstring_compute (sstring_init []) (0 ∷ 1 ∷ []) ≡ undefined
unfolding sstring_compute sstring_init step matched
empty_pattern = refl

sstring_compute_sound_example :
    (ss : Sstring) × (sstring_compute (sstring_init mad) madgaimad ≡ returned ss)
    × (ss.count ≤ 1024)
    × ((k : ℕ) → k < ss.count → OccursAt mad madgaimad (get_or ss.locations k 0))
    × ((k : ℕ) → suc k < ss.count → get_or ss.locations k 0 + 3 ≤ get_or ss.locations (suc k) 0)
sstring_compute_sound_example = sstring_compute_sound mad madgaimad (omega arith) (omega arith)

abbrev madgai : List ℕ
madgai = 109 ∷ 97 ∷ 100 ∷ 103 ∷ 97 ∷ 105 ∷ []

-- after "madgai"
abbrev found_once : Sstring
found_once = record (sstring_init mad) { count = 1; total = 6 }

madgai_lem : sstring_compute (sstring_init mad) madgai ≡ returned found_once
unfolding sstring_compute sstring_init step matched note
madgai_lem = refl

sstring_compute_finds_example :
    (ss' : Sstring) × (sstring_compute (sstring_init mad) (madgai ++ mad) ≡ returned ss')
    × (ss'.count ≡ 2)
    × (get_or ss'.locations 1 0 ≡ 6)
sstring_compute_finds_example =
    sstring_compute_finds mad madgai found_once (omega arith) (omega arith) madgai_lem
      (unfold sstring_init in refl) (unfold sstring_init in refl)

sstring_compute_misses_example :
    (ss : Sstring) × (sstring_compute (sstring_init mad) (109 ∷ mad) ≡ returned ss) × (ss.count ≡ 0)
sstring_compute_misses_example = sstring_compute_misses 109 97 (100 ∷ []) (omega arith)

-- The program's own test, where numbers have two digits.
mad_printed :
    program (print_width 2)
    ≡ returned (
        codes
          "--------> pattern stastics <---------------\npattern <mad> is found 04 times.\nlcoation[00] = 00.\nlcoation[01] = 06.\nlcoation[02] = 09.\nlcoation[03] = 15.\nmax occurance allowed is 24.\ncurrent state = 00, total_states are  = 03 done = 00.\n-------------------------------------------\n")
unfolding program print_sstring_debug report print_locations sstring_compute sstring_init step
    matched note
mad_printed = refl
