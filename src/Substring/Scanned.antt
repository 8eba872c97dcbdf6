-- ===== src/Substring/Scanned.antt =====
-- What holds between two bytes of a search in substring.c.
use spsc.Prelude.{
  ℕ, zero, suc, ◌+◌, ◌≤◌, ◌<◌, ◌≡◌, refl, ap, sym, ◌∙◌, false, List, [], ◌++◌, append_assoc, arith,
  ◌==◌, length, get_or, take, length-replicate,
}
use spsc.Substring.{Sstring, sstring_init, max_occurance}

-- The pattern `p` stands in `text` from index `at` on.
pub record OccursAt (p text : List ℕ) (at : ℕ) : Type 0 where
  pub before : List ℕ
  pub after : List ℕ
  pub shape : text ≡ before ++ (p ++ after)
  pub place : length before ≡ at

pub OccursAt-append :
    (p text more : List ℕ) {at : ℕ} → OccursAt p text at → OccursAt p (text ++ more) at
OccursAt-append p text more o = record {
  before = o.before;
  after = o.after ++ more;
  shape =
      ap (λ t. t ++ more) o.shape
      ∙ append_assoc o.before (p ++ o.after) more
      ∙ ap (λ t. o.before ++ t) (append_assoc p o.after more);
  place = o.place;
}

-- After the bytes `seen`: `pre` is all that is not part of the match going on, and the noted places
-- lie in it, in order and apart.
pub record Scanned (p seen pre : List ℕ) (ss : Sstring) : Type 0 where
  pub pattern : ss.pattern ≡ p
  pub states : ss.total_states ≡ length p
  pub cap : ss.max_occurance ≡ max_occurance
  pub slots : length ss.locations ≡ max_occurance
  pub total : ss.total ≡ length seen
  pub state : ss.state < length p
  pub shape : seen ≡ pre ++ take ss.state p
  pub few : ss.count ≤ max_occurance
  pub flag : ss.done ≡ (ss.count == max_occurance)
  pub found : (k : ℕ) → k < ss.count → OccursAt p seen (get_or ss.locations k 0)
  pub past : (k : ℕ) → k < ss.count → get_or ss.locations k 0 + length p ≤ length pre
  pub apart :
      (k : ℕ)
      → suc k < ss.count
      → get_or ss.locations k 0 + length p ≤ get_or ss.locations (suc k) 0

pub Scanned-init : (p : List ℕ) → 0 < length p → Scanned p [] [] (sstring_init p)
unfolding sstring_init
Scanned-init p h = record {
  pattern = refl;
  states = refl;
  cap = refl;
  slots = length-replicate max_occurance zero;
  total = refl;
  state = h;
  shape = refl;
  few = omega arith;
  flag = refl;
  found = λ k lt. elim lt [ ];
  past = λ k lt. elim lt [ ];
  apart = λ k lt. elim lt [ ];
}

-- a search that is not done has room for another place
pub Scanned-room :
    {p seen pre : List ℕ} {ss : Sstring}
    → Scanned p seen pre ss
    → ss.done ≡ false
    → ss.count < length ss.locations
Scanned-room {ss} s going =
    let more : (ss.count == max_occurance) ≡ false = sym s.flag ∙ going in
    let few : ss.count ≤ max_occurance = s.few in
    let room : ss.count < max_occurance = ground arith in omega (arith, s.slots, room)
