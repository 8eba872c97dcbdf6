-- ===== src/Thor/Ends.antt =====
-- `server_loop` of thor.c gets through what comes in.
use mathlib.Core.Path.{subst}
use spsc.Prelude.{
  ℕ, zero, suc, ◌+◌, ◌*◌, ◌<◌, ◌≡◌, ◌≢◌, ◌⊎◌, inl, inr, refl, ap, ◌∙◌, arith, Bool, true, false,
  none, some, Option, List, [], ◌∷◌, ◌++◌, length, take, drop, length-take, length-drop, is_empty,
  c_string, ◌==◌, ◌-◌, if◌then◌else◌, Run, returned, undefined, >>=-returned, returned-injective,
  ◌>>=◌,
}
use spsc.Outside.{Outside}
use spsc.Frame.{receive, answered, behind, unframed, buffer_size, is_done, server_socket_rcv}
use spsc.Thor.{Thor, serve, server_socket_send}
use spsc.Thor.Loop.{Loop, weight, after_serve, connection, then_accept, server_loop}

-- a round that gives a text has not ended with a failure
gives :
    (b : Bool) (rest : List (List ℕ)) {left : List (List ℕ)} {text : List ℕ}
    {run : Run (Option (List ℕ) × List (List ℕ))}
    → (if b then returned (none, rest) else run) ≡ returned (some text, left)
    → (b ≡ false) × (run ≡ returned (some text, left))
gives true rest h = absurd (let e = ap (λ r. r.0) (returned-injective h) in cc e)
gives false rest h = (refl, h)

defined :
    (b : Bool) {left : List (List ℕ)} {text : List ℕ} {run : Run (Option (List ℕ) × List (List ℕ))}
    → (if b then undefined else run) ≡ returned (some text, left)
    → run ≡ returned (some text, left)
defined true h = absurd (cc h)
defined false h = h

more-gives :
    (b : Bool) (rest : List (List ℕ)) {left : List (List ℕ)} {text : List ℕ}
    {next : Run (Option (List ℕ) × List (List ℕ))}
    → (if b then next else returned (none, rest)) ≡ returned (some text, left)
    → next ≡ returned (some text, left)
more-gives true rest h = h
more-gives false rest h = absurd (let e = ap (λ r. r.0) (returned-injective h) in cc e)

answered_cases :
    (found : Option (List ℕ)) {more : Run (Option (List ℕ) × List (List ℕ))}
    {rest left : List (List ℕ)} {text : List ℕ}
    → answered more rest found ≡ returned (some text, left)
    → (rest ≡ left) ⊎ (more ≡ returned (some text, left))
answered_cases none h = inr h
answered_cases (some text) h = inl (ap (λ r. r.1) (returned-injective h))

pos-length : (xs : List ℕ) → is_empty xs ≡ false → 0 < length xs
pos-length [] h = absurd (ground arith)
pos-length (x ∷ xs) h = omega arith

weight_if :
    (b : Bool) (xs : List ℕ) (pieces : List (List ℕ)) (n : ℕ)
    → length xs < n
    → weight (if b then pieces else xs ∷ pieces) < suc (n + weight pieces)
weight_if true xs pieces n h = omega arith
weight_if false xs pieces n h = omega (arith, h)

-- the first piece was not empty, and part of it was taken
weight-behind :
    (room : ℕ) (piece : List ℕ) (pieces : List (List ℕ))
    → is_empty (take room piece) ≡ false
    → weight (behind room piece pieces) < weight (piece ∷ pieces)
unfolding behind
weight-behind room piece pieces h =
    weight_if (is_empty (drop room piece)) (drop room piece) pieces (length piece) (
      omega (arith, pos-length (take room piece) h, length-take room piece, length-drop room piece))

weight-receive :
    (stops : List ℕ → Bool) (pieces : List (List ℕ)) (gathered : List ℕ) {text : List ℕ}
    {left : List (List ℕ)}
    → receive stops pieces gathered ≡ returned (some text, left)
    → weight left < weight pieces
unfolding receive
weight-receive stops [] gathered h = absurd (let e = ap (λ r. r.0) (returned-injective h) in cc e)
weight-receive stops (piece ∷ pieces) gathered {text} {left} h =
    let room = buffer_size - length gathered in
    let gathered' = gathered ++ take room piece in
    let s = c_string gathered' in
    let rest = behind room piece pieces in
    let (filled, h₁) = gives (is_empty (take room piece)) rest h in
    let h₂ = defined (length s == buffer_size) h₁ in
    let (going, h₃) = gives (stops s) rest h₂ in
    let less : weight rest < weight (piece ∷ pieces) = weight-behind room piece pieces filled in
    elim (answered_cases (unframed s) h₃) [
      | inl e ↦ subst (λ l. weight l < weight (piece ∷ pieces)) e less
      | inr e ↦
          let shorter =
            weight-receive stops pieces gathered' {text = text} {left = left}
              (more-gives (is_empty (drop room piece)) rest e) in
          omega (arith, shorter)
    ]

module _ (o : Outside) (n : ℕ) (thor : Thor) (segment later last : List ℕ) where
  serve_left :
      (text : Option (List ℕ)) (rest : List (List ℕ)) {answer : List ℕ} {thor' : Thor}
      {left : List (List ℕ)}
      → ◌>>=◌ {B = Option (List ℕ) × Thor × List (List ℕ)}
          (spsc.Thor.answered o n thor segment later last text)
          (λ x. returned (x.0, x.1, rest))
        ≡ returned (some answer, thor', left)
      → (t : List ℕ) × (text ≡ some t) × (rest ≡ left)
  unfolding spsc.Thor.answered
  serve_left none rest h = absurd (let e = ap (λ r. r.0) (returned-injective h) in cc e)
  serve_left (some t) rest h =
      let (x, e, e') = >>=-returned (spsc.Thor.answered o n thor segment later last (some t)) _ h in
      (t, refl, ap (λ r. r.2) (returned-injective e'))

  weight-serve :
      (pieces : List (List ℕ)) {answer : List ℕ} {thor' : Thor} {left : List (List ℕ)}
      → serve o n pieces thor segment later last ≡ returned (some answer, thor', left)
      → weight left < weight pieces
  unfolding serve server_socket_rcv
  weight-serve pieces {answer} {thor'} {left} h =
      let (received, rcv, h₁) = >>=-returned (server_socket_rcv pieces) _ h in
      let (t, e, e') =
        serve_left (received.0) (received.1) {answer = answer} {thor' = thor'} {left = left} h₁ in
      weight-receive is_done pieces [] {text = t} {left = left}
        (rcv ∙ ap (λ x. returned (x, received.1)) e ∙ ap (λ l. returned (some t, l)) e')

-- a result, or another end than the fuel's
abbrev Ended : Run (Option Loop) → Type 0
Ended run = run ≢ returned none

module _ (o : Outside) (segment : ℕ → List ℕ) (sent : ℕ → Bool) where
  found-Ended : (loop : Loop) → Ended (returned (some loop))
  found-Ended loop e = let e' = returned-injective e in cc e'

  after_serve-Ended :
      (next : List (List ℕ) → Loop → Run (Option Loop)) (is_sent : Bool) (loop : Loop)
      (answer : Option (List ℕ)) (thor : Thor) (left : List (List ℕ))
      → ((a : List ℕ) (loop' : Loop) → answer ≡ some a → Ended (next left loop'))
      → Ended (after_serve o next is_sent loop answer thor left)
  unfolding after_serve
  after_serve-Ended next is_sent loop none thor left h = found-Ended _
  after_serve-Ended next true loop (some answer) thor left h = h answer _ refl
  after_serve-Ended next false loop (some answer) thor left h = found-Ended _

  connection-ends :
      (fuel : ℕ) (pieces : List (List ℕ)) (loop : Loop)
      → weight pieces < fuel
      → Ended (connection o segment sent fuel pieces loop)
  unfolding connection
  connection-ends zero pieces loop h e = absurd (omega (arith, h))
  connection-ends (suc fuel) pieces loop h e =
      let (served, e₁, e₂) =
        >>=-returned
          (serve o loop.count pieces loop.thor (segment (3 * loop.count))
            (segment (3 * loop.count + 1)) (segment (3 * loop.count + 2)))
          _ e in
      after_serve-Ended (connection o segment sent fuel) (sent loop.count) loop (served.0)
        (served.1) (served.2)
        (λ a loop' is. connection-ends fuel (served.2) loop' (
          omega (
            arith,
            weight-serve o loop.count loop.thor (segment (3 * loop.count))
                (segment (3 * loop.count + 1)) (segment (3 * loop.count + 2)) pieces {answer = a}
                {thor' = served.1} {left = served.2}
                (e₁ ∙ ap (λ x. returned (x, served.1, served.2)) is),
            h,
          )))
        e₂

  then_accept-Ended :
      (next : Loop → Run (Option Loop)) (found : Option Loop)
      → found ≢ none
      → ((loop : Loop) → Ended (next loop))
      → Ended (then_accept o segment sent next found)
  then_accept-Ended next none h h' = absurd (h refl)
  then_accept-Ended next (some loop) h h' = h' loop

  -- Whatever comes in the connections, and whatever stands in the segment: each round of the inner loop
  -- that goes on uses up what came, so the loop gets through all connections, unless a check fails or
  -- C leaves what happens undefined.
  pub server_loop-ends :
      (accepts : List (Option (List (List ℕ)))) (loop : Loop)
      → server_loop o segment sent accepts loop ≢ returned none
  unfolding server_loop
  server_loop-ends [] loop e = found-Ended loop e
  server_loop-ends (none ∷ accepts) loop e = server_loop-ends accepts loop e
  server_loop-ends (some pieces ∷ accepts) loop e =
      let (found, e₁, e₂) =
        >>=-returned (connection o segment sent (suc (weight pieces)) pieces loop) _ e in
      then_accept-Ended (server_loop o segment sent accepts) found
        (λ is.
          connection-ends (suc (weight pieces)) pieces loop (omega arith) (e₁ ∙ ap returned is))
        (λ l. server_loop-ends accepts l) e₂
