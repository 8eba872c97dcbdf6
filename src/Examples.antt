-- ===== src/Examples.antt =====
-- Stand-ins for what the program takes from elsewhere, for the runs of the test modules: numbers printed
-- in ten digits, an `atoi` that reads digits, and a digest that gives one byte for all of the text.
use mathlib.Core.List.Perm
use spsc.Asgard.{Asgard}
use spsc.Jane.{Jane}
use spsc.System.Ready.{Start}
use spsc.Prelude.{
  false, none, append-nil, ℕ, zero, suc, ◌+◌, ◌-◌, ◌*◌, ◌/◌, ◌%◌, ◌^◌, ◌≤◌, ◌<◌, ◌≡◌, ◌≢◌, refl, ap,
  sym, ◌∙◌, arith, List, [], ◌∷◌, ◌++◌, All, All-append, some, true, length-replicate, length,
  length-append, ℤ, pos, replicate,
}
use spsc.Message.{comma}
use spsc.System.{Event, exchanged}
use spsc.System.Exchange.{IsFair}
use spsc.System.Transfer.{IsHonest}
use spsc.Outside.{Outside, Documented}
use spsc.Hash.{big_enough}

abbrev pub print_width : ℕ → ℕ → List ℕ
print_width zero n = []
print_width (suc w) n = print_width w (n / 10) ++ (n % 10 + 48) ∷ []

abbrev pub digits : List ℕ → ℕ → ℕ
digits [] acc = acc
digits (c ∷ cs) acc = digits cs (acc * 10 + (c - 48))

digits-append :
    (xs : List ℕ) (c acc : ℕ) → digits (xs ++ c ∷ []) acc ≡ digits xs acc * 10 + (c - 48)
digits-append [] c acc = refl
digits-append (x ∷ xs) c acc = digits-append xs c (acc * 10 + (x - 48))

-- that a number has no more digits than that
Fits : ℕ → ℕ → Type 0
Fits zero n = n ≡ 0
Fits (suc w) n = Fits w (n / 10)

digits-print_width : (w n : ℕ) → Fits w n → digits (print_width w n) 0 ≡ n
unfolding Fits
digits-print_width zero n h = sym h
digits-print_width (suc w) n h =
    digits-append (print_width w (n / 10)) (n % 10 + 48) 0
    ∙ omega (arith, digits-print_width w (n / 10) h)

Fits-int : (n : ℕ) → n < 2 ^ 31 → Fits 10 n
unfolding Fits
Fits-int n h = omega (arith, h)

pub not_comma : (w n : ℕ) → All (λ c. c ≢ comma) (print_width w n)
not_comma zero n = tt
not_comma (suc w) n =
    All-append (λ c. c ≢ comma) (print_width w (n / 10)) ((n % 10 + 48) ∷ []) (not_comma w (n / 10))
      ((λ e. (let f : ⊥ = omega (arith, e) in f)), tt)

pub length-print_width : (w n : ℕ) → length (print_width w n) ≡ w
length-print_width zero n = refl
length-print_width (suc w) n = omega (
  arith,
  length-append (print_width w (n / 10)) ((n % 10 + 48) ∷ []),
  length-print_width w (n / 10),
)

abbrev pub print_int : ℕ → List ℕ
print_int n = print_width 10 n

abbrev pub atoi : List ℕ → ℤ
atoi s = pos (digits s 0)

pub reads : (n : ℕ) → n < 2 ^ 31 → atoi (print_int n) ≡ pos n
reads n h = ap pos (digits-print_width 10 n (Fits-int n h))

pub are_digits : (w n : ℕ) → All (λ c. (45 ≤ c) × (c ≤ 57)) (print_width w n)
are_digits zero n = tt
are_digits (suc w) n =
    All-append (λ c. (45 ≤ c) × (c ≤ 57)) (print_width w (n / 10)) ((n % 10 + 48) ∷ [])
      (are_digits w (n / 10)) ((omega arith, omega arith), tt)

abbrev pub sum_mod : List ℕ → ℕ
sum_mod [] = 0
sum_mod (x ∷ xs) = (x + sum_mod xs) % 256

abbrev pub stand_in : List ℕ → List ℕ
stand_in s = sum_mod s ∷ replicate 15 7

sum_mod_below : (s : List ℕ) → sum_mod s < 256
sum_mod_below [] = omega arith
sum_mod_below (x ∷ xs) = omega arith

pub stand_in-length : (s : List ℕ) → length (stand_in s) ≡ 16
stand_in-length s = refl

pub below : 7 < 256
below = omega arith

sevens : (n : ℕ) → All (λ byte. byte < 256) (replicate n 7)
sevens zero = tt
sevens (suc n) = (below, sevens n)

pub stand_in-bytes : (s : List ℕ) → All (λ byte. byte < 256) (stand_in s)
stand_in-bytes s = (sum_mod_below s, sevens 15)

abbrev pub file : List ℕ
file = 65 ∷ 66 ∷ 67 ∷ []

abbrev pub here : Outside
here = record {
  md5 = stand_in;
  atoi = atoi;
  print_int = print_int;
  fopen = λ name. some file;
  fopen_output = λ name. true;
  stack = λ n. replicate 3 0;
  sd = λ n. replicate big_enough 0;
}

pub here-Documented : Documented here 3
here-Documented = record {
  md5-length = stand_in-length;
  md5-bytes = stand_in-bytes;
  reads = reads;
  digits = are_digits 10;
  short = λ n h. omega (arith, length-print_width 10 n);
  length-stack = λ n. refl;
  length-sd = λ n. length-replicate {A = ℕ} 1024 0;
}

abbrev pub honest : Event
honest = exchanged (λ s. s) (λ s. s) (λ t. t ∷ []) (λ t. t ∷ [])

pub whole : IsFair (λ t. t ∷ [])
whole t h = ((h, tt), append-nil t)

pub honest-IsHonest : IsHonest honest
honest-IsHonest = ((λ s. refl), (λ s. refl), whole, whole)

-- a segment at address 5000 with three buffers, of which the producer uses one at once
abbrev pub idle : Asgard
idle = record {
  data_ptr = 5000;
  ms = record { sz = 4096; pattern = 0xdead_beef; key = 5678; shm = 5000; shmid = 9 };
  buffers = [];
  members = 3;
  free_pool = 1 ∷ 2 ∷ 3 ∷ [];
  busy_pool = 0 ∷ 0 ∷ 0 ∷ [];
}

pub start : Start here 2 idle 1
start = record {
  doc = here-Documented;
  holds = record {
    sizes = refl;
    few = omega arith;
    free_at = refl;
    busy_at = refl;
    free_order = omega arith;
    busy_order = tt;
    all = Perm.rfl;
  };
  pos_u = omega arith;
  fits_u = omega arith;
  few = omega arith;
}

abbrev pub ready : Jane
ready = record {
  asgard = idle;
  doack = false;
  input_file = some (102 ∷ []);
  input_file_ptr = none;
  shm_buffer = none;
  md5 = replicate big_enough 0;
  failed = false;
  llen = 0;
}
