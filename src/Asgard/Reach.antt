-- ===== src/Asgard/Reach.antt =====
-- The states that the allocator comes to by calls that are made as the producer makes them.
use mathlib.Core.Path.{subst}
use spsc.Prelude.{
  ℕ, ◌+◌, ◌*◌, ◌≤◌, ◌<◌, ◌≡◌, inl, inr, refl, ap, sym, ◌∙◌, Bool-cases, true, false, Option, List,
  [], ◌∷◌, ◌++◌, arith, length, get_or, drop, replicate, assertion_failed, leb, dec_lt, returned,
  returned-injective,
}
use spsc.Asgard.{Asgard, all_free, shm_alloc, shm_dealloc}
use spsc.Asgard.Pools.{Holds, OnlyPools}
use spsc.Asgard.Alloc.{all_free-false, get_or-zeros, get_or-length, shm_alloc_null, shm_alloc_lem}
use spsc.Asgard.Dealloc.{shm_dealloc_lem}

-- A call that returns: any `shm_alloc`, or `shm_dealloc` at the address of the lowest buffer in use,
-- of no more buffers than are in use. `stack` is the scratch array of the sort.
pub data Step (s : Asgard) : Asgard → Type 0 where
  allocates :
      (stack : List ℕ) (num : ℕ) (root : Option ℕ) (s' : Asgard)
      → length stack ≡ s.members
      → shm_alloc stack num s ≡ returned (root, s')
      → Step s s'
  takes_back :
      (stack : List ℕ) (num : ℕ) (s' : Asgard)
      → length stack ≡ s.members
      → 0 < num
      → all_free num 0 s.busy_pool ≡ true
      → shm_dealloc stack num (s.data_ptr + get_or s.busy_pool 0 0 * 1024) s ≡ returned s'
      → Step s s'

pub data Reaches (s : Asgard) : Asgard → Type 0 where
  here : Reaches s s
  next : (s' s'' : Asgard) → Reaches s s' → Step s' s'' → Reaches s s''

-- The pools hold the buffers, each once, and the segment is the one of `s`.
abbrev pub Keeps : Asgard → Asgard → Type 0
Keeps s s' = (free : List ℕ) × (busy : List ℕ) × Holds s' free busy × OnlyPools s s'

counted :
    (num : ℕ) (pool xs : List ℕ) (k : ℕ)
    → pool ≡ xs ++ replicate k 0
    → all_free num 0 pool ≡ true
    → num ≤ length xs
counted num pool xs k e h = elim (dec_lt (length xs) num) [
  | yes lt ↦
      let none_there : all_free num 0 pool ≡ false =
        all_free-false num 0 pool (length xs) (omega arith) (omega arith)
          (ap (λ l. get_or l (length xs) 0) e ∙ get_or-zeros xs k (length xs) ∙ get_or-length xs) in
      absurd (cc)
  | no le ↦ omega (arith, le)
]

shm_alloc_allowed :
    (s : Asgard) (stack : List ℕ) (num : ℕ) (root : Option ℕ) (s' : Asgard)
    → shm_alloc stack num s ≡ returned (root, s')
    → num ≤ s.members
unfolding shm_alloc
shm_alloc_allowed s stack num root s' run = elim (Bool-cases (leb num s.members)) [
  | inl le ↦ ground arith
  | inr lt ↦ absurd (let stuck : assertion_failed ≡ returned (root, s') = rw lt at run in cc)
]

allocates-Keeps :
    (s s' : Asgard) (free busy stack : List ℕ) (num : ℕ) (root : Option ℕ)
    → Holds s free busy
    → length stack ≡ s.members
    → shm_alloc stack num s ≡ returned (root, s')
    → Keeps s s'
allocates-Keeps s s' free busy stack num root h scratch run =
    let allowed : num ≤ s.members = shm_alloc_allowed s stack num root s' run in
    elim (dec_lt (length free) num) [
      | yes few ↦
          let same : s ≡ s' =
            ap (λ r. r.1)
              (returned-injective (sym (shm_alloc_null stack free busy num h allowed few) ∙ run)) in
          subst (Keeps s) same (free, busy, h, refl)
      | no enough ↦
          let (busy', t, e, holds, perm, only) =
            shm_alloc_lem stack free busy num h scratch (omega (arith, enough)) in
          subst (Keeps s) (ap (λ r. r.1) (returned-injective (sym e ∙ run)))
            (drop num free, busy', holds, only)
    ]

takes_back-Keeps :
    (s s' : Asgard) (free busy stack : List ℕ) (num : ℕ)
    → Holds s free busy
    → length stack ≡ s.members
    → 0 < num
    → num ≤ length busy
    → shm_dealloc stack num (s.data_ptr + get_or s.busy_pool 0 0 * 1024) s ≡ returned s'
    → Keeps s s'
takes_back-Keeps s s' free [] stack num h scratch some_num le run = absurd (omega arith)
takes_back-Keeps s s' free (b ∷ busy) stack num h scratch some_num le run =
    let (free', t, e, holds, perm, only) = shm_dealloc_lem stack free b busy num h scratch le in
    let lowest : get_or s.busy_pool 0 0 ≡ b = ap (λ l. get_or l 0 0) h.busy_at in
    let same : t ≡ s' =
      returned-injective
        (sym e ∙ ap (λ n. shm_dealloc stack num (s.data_ptr + n * 1024) s) (sym lowest) ∙ run) in
    subst (Keeps s) same (free', drop num (b ∷ busy), holds, only)

OnlyPools-trans : (s s' s'' : Asgard) → OnlyPools s s' → OnlyPools s' s'' → OnlyPools s s''
OnlyPools-trans s s' s'' first second =
    second
    ∙ ap (λ (a : Asgard). record a { free_pool = s''.free_pool; busy_pool = s''.busy_pool }) first

-- From a state whose two pools hold the numbers of all buffers, each once, in order and with zeros
-- behind them, whatever calls are made of `shm_alloc` with any numbers, and of `shm_dealloc` at the
-- address of the lowest buffer in use, of at least one buffer and no more than are in use: the pools
-- of the state that is come to hold them so again, and nothing but the pools has changed.
pub Reaches-Keeps :
    (s : Asgard) (free busy : List ℕ) {s' : Asgard} → Holds s free busy → Reaches s s' → Keeps s s'
Reaches-Keeps s free busy h here = (free, busy, h, refl)
Reaches-Keeps s free busy h (next t t' run (allocates stack num root _ scratch e)) =
    let (free₁, busy₁, h₁, only₁) = Reaches-Keeps s free busy h run in
    let (free₂, busy₂, h₂, only₂) = allocates-Keeps t t' free₁ busy₁ stack num root h₁ scratch e in
    (free₂, busy₂, h₂, OnlyPools-trans s t t' only₁ only₂)
Reaches-Keeps s free busy h (next t t' run (takes_back stack num _ scratch pos_num in_use e)) =
    let (free₁, busy₁, h₁, only₁) = Reaches-Keeps s free busy h run in
    let le = counted num t.busy_pool busy₁ (length free₁) h₁.busy_at in_use in
    let (free₂, busy₂, h₂, only₂) =
      takes_back-Keeps t t' free₁ busy₁ stack num h₁ scratch pos_num le e in
    (free₂, busy₂, h₂, OnlyPools-trans s t t' only₁ only₂)
