-- ===== src/Config/Checks.antt =====
-- ini_parser.c: what holds of the configurations that `asgard_config_read` accepts.
use spsc.Prelude.{
  returned-injective, ℕ, ◌≤◌, ◌≡◌, ◌≢◌, ◌⊎◌, inl, inr, refl, ap, sym, ◌∙◌, arith, true, false, none,
  List, [], ◌∷◌, returned, ℤ, pos, negsuc, ltb_ℤ, if◌then◌else◌, ◌&&◌, not, Bool-cases,
  >>=-returned, strcmp_equal,
}
use mathlib.Core.Path.{subst}
use spsc.Config.{IniPair, Section}
use spsc.Config.Read.{
  JaneConfig, ThorConfig, no_jane, no_thor, eq_ℤ, buffers_number, read_jane, read_thor,
  read_sections, check_configs, asgard_config_read, buffers_key, jane_name, thor_name,
}
use spsc.Config.Limits.{InRange, buffers_number-InRange, check_configs-true, either}

module _ (atoi : List ℕ → ℤ) where
  read_jane-InRange :
      (pairs : List IniPair) (jane : JaneConfig) {jane' : JaneConfig}
      → InRange jane.buffers
      → read_jane atoi pairs jane ≡ returned jane'
      → InRange jane'.buffers
  unfolding read_jane
  read_jane-InRange [] jane h e = subst (λ j. InRange j.buffers) (returned-injective e) h
  read_jane-InRange (p ∷ pairs) jane h e =
      let key = strcmp_equal buffers_key p.key in
      let r = >>=-returned (buffers_number jane.buffers key (atoi p.value)) _ e in
      read_jane-InRange pairs _ (buffers_number-InRange jane.buffers key (atoi p.value) h (r.1))
        (r.2)

  read_thor-InRange :
      (pairs : List IniPair) (thor : ThorConfig) {thor' : ThorConfig}
      → InRange thor.buffers
      → read_thor atoi pairs thor ≡ returned thor'
      → InRange thor'.buffers
  unfolding read_thor
  read_thor-InRange [] thor h e = subst (λ j. InRange j.buffers) (returned-injective e) h
  read_thor-InRange (p ∷ pairs) thor h e =
      let key = strcmp_equal buffers_key p.key in
      let r = >>=-returned (buffers_number thor.buffers key (atoi p.value)) _ e in
      read_thor-InRange pairs _ (buffers_number-InRange thor.buffers key (atoi p.value) h (r.1))
        (r.2)

  read_sections-InRange :
      (sections : List Section) (jane : JaneConfig) (thor : ThorConfig)
      {read : JaneConfig × ThorConfig}
      → InRange jane.buffers
      → InRange thor.buffers
      → read_sections atoi sections jane thor ≡ returned read
      → InRange (read.0.buffers) × InRange (read.1.buffers)
  unfolding read_sections
  read_sections-InRange [] jane thor hj ht e =
      subst (λ r. InRange (r.0.buffers) × InRange (r.1.buffers)) (returned-injective e) (hj, ht)
  read_sections-InRange (s ∷ sections) jane thor hj ht e =
      let r =
        >>=-returned
          (if strcmp_equal jane_name s.name
            then read_jane atoi s.config_pair jane
            else returned jane)
          _ e in
      let q =
        >>=-returned
          (if strcmp_equal thor_name s.name
            then read_thor atoi s.config_pair thor
            else returned thor)
          _ (r.2) in
      read_sections-InRange sections (r.0) (q.0)
        (either (strcmp_equal jane_name s.name) (λ j. InRange j.buffers) hj
          (λ j. read_jane-InRange s.config_pair jane {jane' = j} hj) (r.1))
        (either (strcmp_equal thor_name s.name) (λ t. InRange t.buffers) ht
          (λ t. read_thor-InRange s.config_pair thor {thor' = t} ht) (q.1))
        (q.2)

  -- The configurations that are accepted: both name one number of buffers, from 2 to 102,399, and
  -- one port, which is not zero, and the search is either off, or on and has a pattern.
  pub asgard_config_read_accepts :
      (sections : List Section) (jane : JaneConfig) (thor : ThorConfig)
      → asgard_config_read atoi sections ≡ returned (true, (jane, thor))
      → (((n : ℕ) × (jane.buffers ≡ pos n) × (2 ≤ n) × (n ≤ 102399))
          × (thor.buffers ≡ jane.buffers))
        × (((thor.do_search ≡ pos 0) ⊎ ((thor.do_search ≡ pos 1) × (thor.pattern ≢ none)))
            × ((jane.port ≢ pos 0) × (thor.port ≡ jane.port)))
  unfolding asgard_config_read
  asgard_config_read_accepts sections jane thor e =
      let r = >>=-returned (read_sections atoi sections no_jane no_thor) _ e in
      let q = >>=-returned (check_configs (r.0.0) (r.0.1)) _ (r.2) in
      let same : (q.0, r.0) ≡ (true, (jane, thor)) = returned-injective (q.2) in
      let range = read_sections-InRange sections no_jane no_thor (inl refl) (inl refl) (r.1) in
      let passed : check_configs jane thor ≡ returned true =
        ap (λ x. check_configs (x.1.0) (x.1.1)) (sym same) ∙ q.1 ∙ ap (λ x. returned (x.0)) same in
      check_configs-true jane thor (subst InRange (ap (λ x. x.1.0.buffers) same) (range.0)) passed

-- the test of it has two conditions that exclude each other
use_test :
    (a b u : ℤ)
    → (ltb_ℤ (pos 0) a && eq_ℤ a b) ≡ true
    → (not (ltb_ℤ (pos 0) u) && ltb_ℤ a u) ≡ false
use_test (pos a) b (pos u) h = ground arith
use_test (pos a) b (negsuc u) h = ground arith
use_test (negsuc a) b u h = absurd (ground arith)

-- The number of buffers to use at once is not checked: any other value is accepted just the same.
pub check_configs_any_use_buffers :
    (jane : JaneConfig) (thor : ThorConfig) (u : ℤ)
    → check_configs (record jane { use_buffers = u }) thor ≡ check_configs jane thor
unfolding check_configs
check_configs_any_use_buffers jane thor u =
    elim (Bool-cases (ltb_ℤ (pos 0) jane.buffers && eq_ℤ jane.buffers thor.buffers)) [
      | inr refused ↦ rw refused refl
      | inl going ↦
          rw
            (
              use_test jane.buffers thor.buffers u going,
              use_test jane.buffers thor.buffers jane.use_buffers going,
            )
            refl
    ]
