-- ===== src/System/Finish.antt =====
-- The end: `client_loop` has read the whole file, and sends "+DONE+" with the zero behind it.
use mathlib.Core.Path.{subst}
use spsc.Prelude.{
  ℕ, zero, suc, ◌+◌, ◌*◌, ◌-◌, ◌≤◌, ◌≡◌, ◌⊎◌, inl, inr, refl, ap, sym, ◌∙◌, arith, Bool, true,
  false, none, some, Option, List, [], ◌∷◌, ◌++◌, append_assoc, All, length, length-append, take,
  take_all, drop_all, c_string, ◌==◌, Run, returned,
}
use spsc.Outside.{Outside}
use spsc.Segment.Slices.{take-length_append}
use spsc.Frame.{
  strstr, starts_with, unframed, receive, behind, is_done, server_socket_rcv, done_trans,
  buffer_size,
}
use spsc.Frame.Pieces.{IsFilled, flat, filled}
use spsc.Thor.{Thor, serve}
use spsc.Thor.Loop.{Loop, statistics, connection, after_serve, server_loop}
use spsc.System.{World, finish}
use spsc.System.Exchange.{IsFair}

abbrev pub farewell : List ℕ
farewell = done_trans ++ 0 ∷ []

-- With a part of it the loop of the receiver ends, or finds no markers.
abbrev Parts : List ℕ → Type 0
Parts s =
    ((length (c_string s) == buffer_size) ≡ false)
    × ((is_done (c_string s) ≡ true)
        ⊎ ((is_done (c_string s) ≡ false) × (unframed (c_string s) ≡ none)))

take-Parts : (n : ℕ) → Parts (take n farewell)
unfolding is_done strstr starts_with c_string unframed
take-Parts zero = (refl, inr (refl, refl))
take-Parts (suc zero) = (refl, inr (refl, refl))
take-Parts (suc (suc zero)) = (refl, inr (refl, refl))
take-Parts (suc (suc (suc zero))) = (refl, inr (refl, refl))
take-Parts (suc (suc (suc (suc zero)))) = (refl, inr (refl, refl))
take-Parts (suc (suc (suc (suc (suc zero))))) = (refl, inr (refl, refl))
take-Parts (suc (suc (suc (suc (suc (suc zero)))))) = (refl, inl refl)
take-Parts (suc (suc (suc (suc (suc (suc (suc n))))))) = (refl, inl refl)

part-Parts : (s rest : List ℕ) → s ++ rest ≡ farewell → Parts s
part-Parts s rest whole =
    subst Parts (ap (take (length s)) (sym whole) ∙ take-length_append s rest (length s) refl)
      (take-Parts (length s))

-- what the receiver makes of it
abbrev Ends : Run (Option (List ℕ) × List (List ℕ)) → Type 0
Ends run = (left : List (List ℕ)) × (run ≡ returned (none, left))

receive-Ends :
    (pieces : List (List ℕ)) (gathered : List ℕ)
    → All IsFilled pieces
    → gathered ++ flat pieces ≡ farewell
    → Ends (receive is_done pieces gathered)
unfolding receive behind
receive-Ends [] gathered h whole = ([], refl)
receive-Ends (piece ∷ pieces) gathered h whole =
    let rest = flat pieces in
    let split : (gathered ++ piece) ++ rest ≡ farewell = append_assoc gathered piece rest ∙ whole in
    let fits : length piece ≤ buffer_size - length gathered = omega (
      arith,
      ap length split,
      length-append (gathered ++ piece) rest,
      length-append gathered piece,
    ) in
    let (not_full, parts) = part-Parts (gathered ++ piece) rest split in
    elim parts [
      | inl done ↦ (
        pieces,
        rw
            (
              take_all (buffer_size - length gathered) piece fits,
              drop_all (buffer_size - length gathered) piece fits,
              filled piece (h.0),
              not_full,
              done,
            )
            refl,
      )
      | inr (not_done, no_markers) ↦
          let (left, e) = receive-Ends pieces (gathered ++ piece) (h.1) split in
          (
            left,
            rw
                (
                  take_all (buffer_size - length gathered) piece fits,
                  drop_all (buffer_size - length gathered) piece fits,
                  filled piece (h.0),
                  not_full,
                  not_done,
                  no_markers,
                )
                e,
          )
    ]

pub serve-farewell :
    (o : Outside) (n : ℕ) (cut : List ℕ → List (List ℕ)) (thor : Thor) (segment later last : List ℕ)
    → IsFair cut
    → (left : List (List ℕ)) × (serve o n (cut farewell) thor segment later last
        ≡ returned (none, thor, left))
unfolding serve server_socket_rcv spsc.Thor.answered
serve-farewell o n cut thor segment later last fair =
    let (h, whole) = fair farewell (omega arith) in
    let (left, e) = receive-Ends (cut farewell) [] h whole in (left, rw e refl)

-- However the network cuts what client_loop sends at its end into pieces that are not empty: the
-- consumer goes back to server_accept, has written nothing, and has given no answer.
pub finish_lem :
    (o : Outside) (n : ℕ) (cut : List ℕ → List (List ℕ)) (w : World)
    → IsFair cut
    → (left : List (List ℕ)) × (finish o n cut w ≡ returned (none, w.thor, left))
unfolding finish
finish_lem o n cut w fair = serve-farewell o n cut w.thor w.segment w.segment w.segment fair

-- However the network cuts what client_loop sends at its end into pieces that are not empty, and
-- whatever stands in the segment: server_loop prints the statistics of the search, if there is one,
-- and goes on with the next connection, with no text answered and the state as it was.
pub server_loop-farewell :
    (o : Outside) (segment : ℕ → List ℕ) (sent : ℕ → Bool) (cut : List ℕ → List (List ℕ))
    (accepts : List (Option (List (List ℕ)))) (loop : Loop)
    → IsFair cut
    → server_loop o segment sent (some (cut farewell) ∷ accepts) loop
      ≡ server_loop o segment sent accepts
          (record loop { printed = loop.printed ++ statistics o loop.thor.substring_context })
unfolding server_loop connection after_serve
server_loop-farewell o segment sent cut accepts loop fair =
    let (left, e) =
      serve-farewell o loop.count cut loop.thor (segment (3 * loop.count))
        (segment (3 * loop.count + 1)) (segment (3 * loop.count + 2)) fair in
    rw e refl
