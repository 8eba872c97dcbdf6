-- ===== src/Substring.antt =====
-- substring.c: search for a pattern in a stream of bytes that arrives in pieces. A C string is the
-- list of its bytes before the zero that ends it; `total` is a `long long`, and stays below its
-- limit.
pub mod Scan
pub mod Scanned
pub mod Advance
pub mod Sound
pub mod Complete
pub mod Report
mod Tests
use spsc.Prelude.{
  ℕ, zero, suc, ◌+◌, ◌-◌, Bool, true, false, List, [], ◌∷◌, ◌==◌, if◌then◌else◌, length, get_or,
  set, replicate, ltb, ◌%◌, ◌^◌, Run, returned, undefined, ◌>>=◌,
}

abbrev pub max_occurance : ℕ
max_occurance = 1024

-- `sstring`. `max_occurance` never changes, and has a field all the same.
pub record Sstring : Type 0 where
  pub count : ℕ
  pub locations : List ℕ
  pub max_occurance : ℕ
  pub pattern : List ℕ
  pub state : ℕ
  pub total_states : ℕ
  pub total : ℕ
  pub done : Bool

unfoldable pub sstring_init : List ℕ → Sstring
sstring_init substring = record {
  count = 0;
  locations = replicate max_occurance 0;
  max_occurance = max_occurance;
  pattern = substring;
  state = 0;
  total_states = length substring;
  total = 0;
  done = false;
}

-- a `long long` stored in an `int`, which is a number below 2 ^ 32 here, and negative from 2 ^ 31 on
abbrev pub to_int : ℕ → ℕ
to_int n = n % 2 ^ 32

-- The match of a whole pattern: `state` begins anew and the place is noted. `total` counts the
-- bytes before this one.
unfoldable pub note : Sstring → Sstring
note ss =
    let count = ss.count + 1 in
    record ss {
      state = 0;
      locations = set ss.locations ss.count (to_int (ss.total - (ss.total_states - 1)));
      count = count;
      done = if ss.max_occurance == count then true else ss.done;
    }

-- The body of the loop at one byte, where the pattern has one at `state`, or the zero behind it.
unfoldable pub matched : Sstring → ℕ → Sstring
matched ss byte =
    if byte == get_or ss.pattern ss.state 0
    then (let advanced = record ss { state = ss.state + 1 } in
        if advanced.state == ss.total_states then note advanced else advanced)
    else record ss { state = 0 }

-- The body of the loop; a read behind the zero of the pattern is undefined.
unfoldable pub step : Sstring → ℕ → Run Sstring
step ss byte = if ltb (length ss.pattern) ss.state then undefined else returned (matched ss byte)

-- The loop over `data[0 .. len)`, which stops once `done` is set.
unfoldable pub sstring_compute : Sstring → List ℕ → Run Sstring
sstring_compute ss [] = returned ss
sstring_compute ss (byte ∷ rest) =
    let next =
      step ss byte >>= λ ss'. sstring_compute (record ss' { total = ss'.total + 1 }) rest in
    if ss.done then returned ss else next
