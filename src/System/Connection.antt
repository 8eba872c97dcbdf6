-- ===== src/System/Connection.antt =====
-- A connection of `server_loop` on which several texts come, each of which the consumer answers.
use spsc.Prelude.{
  ℕ, zero, suc, ◌+◌, ◌*◌, ◌≤◌, ◌<◌, ◌≡◌, refl, ap, ◌∙◌, arith, Bool, true, some, Option, List, [],
  ◌∷◌, ◌++◌, append_assoc, length, length-append, returned,
}
use spsc.Outside.{Outside}
use spsc.Thor.{Thor, serve}
use spsc.Thor.Loop.{Loop, weight, statistics, after_serve, connection, server_loop}
use spsc.System.{run}
use spsc.System.Exchange.{IsFair}
use spsc.System.Finish.{farewell, serve-farewell}
use spsc.System.Trace.{Seen, arrived, timeline}
use spsc.System.Passing.{IsAnswered}

weight-append : (ps qs : List (List ℕ)) → weight (ps ++ qs) ≡ weight ps + weight qs
weight-append [] qs = omega arith
weight-append (p ∷ ps) qs = omega (arith, weight-append ps qs)

-- the segment is at the times of the texts what is seen of it
abbrev pub Follows : (ℕ → List ℕ) → ℕ → List Seen → Type 0
Follows segment n [] = Unit
Follows segment n (s ∷ seen) =
    (segment (3 * n) ≡ s.checked)
    × (segment (3 * n + 1) ≡ s.written)
    × (segment (3 * n + 2) ≡ s.searched)
    × Follows segment (suc n) seen

timeline-first :
    (s : Seen) (seen : List Seen) (n : ℕ)
    → (timeline (s ∷ seen) n (3 * n) ≡ s.checked)
      × (timeline (s ∷ seen) n (3 * n + 1) ≡ s.written)
      × (timeline (s ∷ seen) n (3 * n + 2) ≡ s.searched)
unfolding timeline
timeline-first s seen n = (ground arith, ground arith, ground arith)

timeline_later :
    (s : Seen) (seen : List Seen) (n t : ℕ)
    → 3 * n + 2 < t
    → timeline (s ∷ seen) n t ≡ timeline seen (suc n) t
unfolding timeline
timeline_later s seen n t h = ground arith

-- what agrees with another from the `n`-th text on
Follows-same :
    (segment other : ℕ → List ℕ) (n : ℕ) (seen : List Seen)
    → ((t : ℕ) → 3 * n ≤ t → segment t ≡ other t)
    → Follows other n seen
    → Follows segment n seen
Follows-same segment other n [] same h = tt
Follows-same segment other n (s ∷ seen) same (e, e', e'', h) = (
  same (3 * n) (omega arith) ∙ e,
  same (3 * n + 1) (omega arith) ∙ e',
  same (3 * n + 2) (omega arith) ∙ e'',
  Follows-same segment other (suc n) seen (λ t le. same t (omega (arith, le))) h,
)

pub timeline-Follows : (seen : List Seen) (n : ℕ) → Follows (timeline seen n) n seen
timeline-Follows [] n = tt
timeline-Follows (s ∷ seen) n =
    let first = timeline-first s seen n in
    (
      first.0,
      first.1,
      first.2,
      Follows-same (timeline (s ∷ seen) n) (timeline seen (suc n)) (suc n) seen
          (λ t le. timeline_later s seen n t (omega (arith, le))) (timeline-Follows seen (suc n)),
    )

-- each text is answered in its turn
pub data Answers (o : Outside) : ℕ → List Seen → Thor → Thor → Type 0 where
  silent : (n : ℕ) (thor : Thor) → Answers o n [] thor thor
  answers :
      (n : ℕ) (s : Seen) (seen : List Seen) (thor thor' thor'' : Thor)
      → IsAnswered o n s thor thor'
      → Answers o (suc n) seen thor' thor''
      → Answers o n (s ∷ seen) thor thor''

-- every `send` of the consumer succeeds
abbrev pub always : ℕ → Bool
always n = true

module _ (o : Outside) (segment : ℕ → List ℕ) where
  answered_once :
      (fuel n : ℕ) (thor thor' : Thor) (given : List (List ℕ)) (printed answer : List ℕ)
      (pieces rest : List (List ℕ)) (checked written searched : List ℕ)
      → segment (3 * n) ≡ checked
      → segment (3 * n + 1) ≡ written
      → segment (3 * n + 2) ≡ searched
      → serve o n pieces thor checked written searched ≡ returned (some answer, thor', rest)
      → connection o segment always
          (suc fuel)
          pieces
          (record { thor = thor; count = n; answers = given; printed = printed })
        ≡ connection o segment always fuel rest (record {
          thor = thor';
          count = n + 1;
          answers = given ++ answer ∷ [];
          printed = printed;
        })
  unfolding connection after_serve
  answered_once fuel n thor thor' given printed answer pieces rest checked written searched e e' e''
        served =
      rw (e, e', e'', served) refl

  -- the end of the transfer
  farewell_lem :
      (fuel n : ℕ) (thor : Thor) (given : List (List ℕ)) (printed : List ℕ)
      (cut : List ℕ → List (List ℕ))
      → IsFair cut
      → weight (cut farewell) < fuel
      → connection o segment always fuel
          (cut farewell)
          (record { thor = thor; count = n; answers = given; printed = printed })
        ≡ returned (
            some (record {
              thor = thor;
              count = n;
              answers = given;
              printed = printed ++ statistics o thor.substring_context;
            }))
  unfolding connection after_serve
  farewell_lem zero n thor given printed cut fair h = absurd (omega (arith, h))
  farewell_lem (suc fuel) n thor given printed cut fair h =
      let (left, e) =
        serve-farewell o n cut thor (segment (3 * n)) (segment (3 * n + 1)) (segment (3 * n + 2))
          fair in
      rw e refl

  -- before the `n`-th text
  abbrev pub at : ℕ → Thor → List (List ℕ) → List ℕ → Loop
  at n thor given printed = record { thor = thor; count = n; answers = given; printed = printed }

  -- The texts are answered one after the other, and what comes behind them is left.
  connection-Answers :
      (fuel n : ℕ) (seen : List Seen) (thor thor' : Thor) (tail : List (List ℕ))
      (given : List (List ℕ)) (printed : List ℕ)
      → Answers o n seen thor thor'
      → Follows segment n seen
      → weight (arrived seen ++ tail) < fuel
      → (fuel' : ℕ) × (given' : List (List ℕ)) × (weight tail < fuel')
        × (length given' ≡ length given + length seen)
        × (connection o segment always fuel (arrived seen ++ tail) (at n thor given printed)
            ≡ connection o segment always fuel' tail (at (n + length seen) thor' given' printed))
  connection-Answers zero n seen thor thor' tail given printed run follows h =
      absurd (omega (arith, h))
  connection-Answers (suc fuel) n seen thor thor' tail given printed (silent _ _) follows h =
      let same : n ≡ n + 0 = omega arith in
      (
        suc fuel,
        given,
        h,
        omega arith,
        ap (λ k. connection o segment always (suc fuel) tail (at k thor given printed)) same,
      )
  connection-Answers (suc fuel) n seen thor thor' tail given printed
        (answers _ s later _ t _ (some_bytes, answer, serves) run) (e, e', e'', follows) h =
      let split = append_assoc s.pieces (arrived later) tail in
      let left : weight (arrived later ++ tail) < fuel =
        omega
          (arith, h, some_bytes, ap weight split, weight-append s.pieces (arrived later ++ tail)) in
      let first =
        answered_once fuel n thor t given printed answer (s.pieces ++ (arrived later ++ tail))
          (arrived later ++ tail) s.checked s.written s.searched e e' e''
          (serves (arrived later ++ tail)) in
      let (fuel', given', enough, size, rest) =
        connection-Answers fuel (suc n) later t thor' tail (given ++ answer ∷ []) printed run
          follows left in
      let next : n + 1 ≡ suc n = omega arith in
      let count : suc n + length later ≡ n + suc (length later) = omega arith in
      (
        fuel',
        given',
        enough,
        omega (arith, size, length-append given (answer ∷ [])),
        ap (λ l. connection o segment always (suc fuel) l (at n thor given printed)) split
            ∙ first
            ∙ ap
                (λ k.
                  connection o segment always fuel (arrived later ++ tail)
                    (at k t (given ++ answer ∷ []) printed))
                next
            ∙ rest
            ∙ ap (λ k. connection o segment always fuel' tail (at k thor' given' printed)) count,
      )

  -- a connection on which the texts come, and then the end of the transfer
  pub server_loop-Answers :
      (n : ℕ) (seen : List Seen) (thor thor' : Thor) (given : List (List ℕ)) (printed : List ℕ)
      (cut : List ℕ → List (List ℕ)) (accepts : List (Option (List (List ℕ))))
      → Answers o n seen thor thor'
      → Follows segment n seen
      → IsFair cut
      → (given' : List (List ℕ)) × (length given' ≡ length given + length seen)
        × (server_loop o segment always
              (some (arrived seen ++ cut farewell) ∷ accepts)
              (at n thor given printed)
            ≡ server_loop o segment always accepts (
                at
                  (n + length seen)
                  thor'
                  given'
                  (printed ++ statistics o thor'.substring_context)))
  unfolding server_loop
  server_loop-Answers n seen thor thor' given printed cut accepts run follows fair =
      let pieces = arrived seen ++ cut farewell in
      let (fuel', given', enough, size, e) =
        connection-Answers (suc (weight pieces)) n seen thor thor' (cut farewell) given printed run
          follows (omega arith) in
      (
        given',
        size,
        rw (e, farewell_lem fuel' (n + length seen) thor' given' printed cut fair enough) refl,
      )
