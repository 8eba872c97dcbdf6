-- ===== src/Outside.antt =====
-- What the two programs take from elsewhere: the C library, OpenSSL, the file system, and the contents
-- of arrays that are not initialised. `Documented` is what is relied on.
use spsc.Prelude.{ℕ, ◌^◌, ◌≤◌, ◌<◌, ◌≡◌, Bool, Option, List, All, length, ℤ, pos}
use spsc.Hash.{md5_digest_length, big_enough}

pub record Outside : Type 0 where
  pub md5 : List ℕ → List ℕ
  pub atoi : List ℕ → ℤ
  -- what `%d` prints of an `int`, given as a number below 2 ^ 32, negative from 2 ^ 31 on
  pub print_int : ℕ → List ℕ
  -- the contents of a file, or none where `fopen` fails
  pub fopen : List ℕ → Option (List ℕ)
  -- whether `fopen` gives a file of that name to append to, with none for `NULL`
  pub fopen_output : Option (List ℕ) → Bool
  -- the scratch array of the `n`-th sort
  pub stack : ℕ → List ℕ
  -- the local array of the `n`-th check of a digest
  pub sd : ℕ → List ℕ

pub record Documented (o : Outside) (members : ℕ) : Type 0 where
  pub md5-length : (s : List ℕ) → length (o.md5 s) ≡ md5_digest_length
  pub md5-bytes : (s : List ℕ) → All (λ byte. byte < 256) (o.md5 s)
  pub reads : (n : ℕ) → n < 2 ^ 31 → o.atoi (o.print_int n) ≡ pos n
  pub digits : (n : ℕ) → All (λ c. (45 ≤ c) × (c ≤ 57)) (o.print_int n)
  pub short : (n : ℕ) → n < 2 ^ 31 → length (o.print_int n) < 24
  pub length-stack : (n : ℕ) → length (o.stack n) ≡ members
  pub length-sd : (n : ℕ) → length (o.sd n) ≡ big_enough
