-- ===== src/Frame/Pieces.antt =====
-- However a frame is cut into pieces, the two functions find the text in it.
use spsc.Prelude.{
  ◌⊎◌, inl, inr, ℕ, zero, suc, ◌-◌, ◌≤◌, ◌<◌, ◌≡◌, refl, ap, sym, ◌∙◌, arith, false, none, some,
  List, [], ◌∷◌, ◌++◌, append-nil, append_assoc, ◌==◌, All, length, length-append, Bool, Option,
  drop, take_all, take-nil, drop_all, is_empty, returned,
}
use spsc.Frame.{
  frame, unframed, receive, answered, behind, is_done, client_socket_rcv, server_socket_rcv,
  buffer_size,
}
use spsc.Frame.Receive.{
  IsFramed, length-frame, unframed-frame, unframed-part, c_string-part, is_done-part,
}

-- the pieces in a row
abbrev pub flat : List (List ℕ) → List ℕ
flat [] = []
flat (piece ∷ pieces) = piece ++ flat pieces

abbrev pub IsFilled : List ℕ → Type 0
IsFilled piece = 0 < length piece

pub filled : (piece : List ℕ) → IsFilled piece → is_empty piece ≡ false
filled [] h = absurd (omega (arith, h))
filled (x ∷ xs) h = refl

module _ (stops : List ℕ → Bool) (text : List ℕ) (is : IsFramed text) (short : length text < 1000)
    (goes_on : (s rest : List ℕ) → s ++ rest ≡ frame text → stops s ≡ false) where
  -- one round of the loop, where the piece fits
  receive_step :
      (piece gathered rest : List ℕ) (pieces : List (List ℕ))
      → (gathered ++ piece) ++ rest ≡ frame text
      → IsFilled piece
      → {found : Option (List ℕ)} → unframed (gathered ++ piece) ≡ found
      → receive stops (piece ∷ pieces) gathered
        ≡ answered (receive stops pieces (gathered ++ piece)) pieces found
  unfolding receive behind
  receive_step piece gathered rest pieces whole full {found} e =
      let size = ap length whole ∙ length-frame text in
      let parts = length-append (gathered ++ piece) rest in
      let parts' = length-append gathered piece in
      let fits : length piece ≤ buffer_size - length gathered =
        omega (arith, size, parts, parts', short) in
      let not_full : (length (gathered ++ piece) == buffer_size) ≡ false =
        (let lt : length (gathered ++ piece) < buffer_size = omega (arith, size, parts, short) in
          ground arith) in
      rw
        (
          take_all (buffer_size - length gathered) piece fits,
          drop_all (buffer_size - length gathered) piece fits,
          c_string-part text is (gathered ++ piece) rest whole,
          filled piece full,
          not_full,
          goes_on (gathered ++ piece) rest whole,
          e,
        )
        refl

  receive_pieces :
      (pieces : List (List ℕ)) (piece gathered : List ℕ) (more : List (List ℕ))
      → IsFilled piece
      → All IsFilled pieces
      → gathered ++ (piece ++ flat pieces) ≡ frame text
      → receive stops (piece ∷ (pieces ++ more)) gathered ≡ returned (some text, more)
  receive_pieces [] piece gathered more h hs whole =
      let all : gathered ++ piece ≡ frame text =
        ap (λ l. gathered ++ l) (sym (append-nil piece)) ∙ whole in
      receive_step piece gathered [] more (append-nil (gathered ++ piece) ∙ all) h
        (ap unframed all ∙ unframed-frame text is)
  receive_pieces (q ∷ pieces) piece gathered more h hs whole =
      let rest = flat (q ∷ pieces) in
      let split : (gathered ++ piece) ++ rest ≡ frame text =
        append_assoc gathered piece rest ∙ whole in
      receive_step piece gathered rest (q ∷ (pieces ++ more)) split h (
        unframed-part text is (gathered ++ piece) rest split
          (omega (arith, hs.0, length-append q (flat pieces))))
      ∙ receive_pieces pieces q (gathered ++ piece) more (hs.0) (hs.1) split

  receive-frame :
      (pieces more : List (List ℕ))
      → All IsFilled pieces
      → flat pieces ≡ frame text
      → receive stops (pieces ++ more) [] ≡ returned (some text, more)
  receive-frame [] more h whole = absurd (omega (arith, ap length whole))
  receive-frame (piece ∷ pieces) more h whole =
      receive_pieces pieces piece [] more (h.0) (h.1) whole

pub server_socket_rcv-frame :
    (text : List ℕ) (pieces more : List (List ℕ))
    → IsFramed text
    → length text < 1000
    → All IsFilled pieces
    → flat pieces ≡ frame text
    → server_socket_rcv (pieces ++ more) ≡ returned (some text, more)
unfolding server_socket_rcv
server_socket_rcv-frame text pieces more is short h whole =
    receive-frame is_done text is short (λ s rest e. is_done-part text is s rest e) pieces more h
      whole

-- A frame whose text has no zero, no "+DONE+" and no end marker before its own, and is shorter
-- than 1,000 characters, however it is cut into pieces that are not empty: client_socket_rcv
-- gives the text, and leaves the pieces that come after.
pub client_socket_rcv-frame :
    (text : List ℕ) (pieces more : List (List ℕ))
    → IsFramed text
    → length text < 1000
    → All IsFilled pieces
    → flat pieces ≡ frame text
    → client_socket_rcv (pieces ++ more) ≡ returned (some text, more)
unfolding client_socket_rcv
client_socket_rcv-frame text pieces more is short h whole =
    receive-frame (λ s. false) text is short (λ s rest e. refl) pieces more h whole

drop-nil {ℓ} : {A : Type ℓ} (n : ℕ) → ◌≡◌ {A = List A} (drop n []) []
drop-nil zero = refl
drop-nil (suc n) = refl

-- a `recv` that fails ends the loop
receive_closed :
    (stops : List ℕ → Bool) (gathered : List ℕ) (more : List (List ℕ))
    → receive stops ([] ∷ more) gathered ≡ returned (none, more)
unfolding receive behind
receive_closed stops gathered more =
    rw
      (
        take-nil {A = ℕ} (buffer_size - length gathered),
        drop-nil {A = ℕ} (buffer_size - length gathered),
      )
      refl

-- a part of a frame, and then what ends the loop
module _ (stops : List ℕ → Bool) (text : List ℕ) (is : IsFramed text) (short : length text < 1000)
    (goes_on : (s rest : List ℕ) → s ++ rest ≡ frame text → stops s ≡ false)
    (tail more : List (List ℕ))
    (closes : (gathered : List ℕ) → receive stops tail gathered ≡ returned (none, more)) where
  receive_cut :
      (pieces : List (List ℕ)) (gathered rest : List ℕ)
      → All IsFilled pieces
      → (gathered ++ flat pieces) ++ rest ≡ frame text
      → 0 < length rest
      → receive stops (pieces ++ tail) gathered ≡ returned (none, more)
  receive_cut [] gathered rest h whole left = closes gathered
  receive_cut (piece ∷ pieces) gathered rest h whole left =
      let split : (gathered ++ piece) ++ (flat pieces ++ rest) ≡ frame text =
        sym (append_assoc (gathered ++ piece) (flat pieces) rest)
        ∙ ap (λ l. l ++ rest) (append_assoc gathered piece (flat pieces))
        ∙ whole in
      receive_step stops text is short goes_on piece gathered (flat pieces ++ rest) (pieces ++ tail)
        split (h.0)
        (unframed-part text is (gathered ++ piece) (flat pieces ++ rest) split
          (omega (arith, left, length-append (flat pieces) rest)))
      ∙ receive_cut pieces (gathered ++ piece) rest (h.1)
          (ap (λ l. l ++ rest) (append_assoc gathered piece (flat pieces)) ∙ whole) left

module _ (stops : List ℕ → Bool) (text : List ℕ) (is : IsFramed text) (short : length text < 1000)
    (goes_on : (s rest : List ℕ) → s ++ rest ≡ frame text → stops s ≡ false) where
  -- a connection that is closed when the whole frame or a part of it has come
  receive_prefix :
      (pieces : List (List ℕ)) (rest : List ℕ)
      → All IsFilled pieces
      → flat pieces ++ rest ≡ frame text
      → (receive stops pieces [] ≡ returned (some text, []))
        ⊎ (receive stops pieces [] ≡ returned (none, []))
  unfolding receive
  receive_prefix pieces [] h whole = inl (
      ap (λ l. receive stops l []) (sym (append-nil pieces))
      ∙ receive-frame stops text is short goes_on pieces [] h
          (sym (append-nil (flat pieces)) ∙ whole))
  receive_prefix pieces (c ∷ rest) h whole = inr (
      ap (λ l. receive stops l []) (sym (append-nil pieces))
      ∙ receive_cut stops text is short goes_on [] [] (λ gathered. refl) pieces [] (c ∷ rest) h
          whole (omega arith))

module _ (text : List ℕ) (is : IsFramed text) (short : length text < 1000) where
  pub client_socket_rcv_prefix :
      (pieces : List (List ℕ)) (rest : List ℕ)
      → All IsFilled pieces
      → flat pieces ++ rest ≡ frame text
      → (client_socket_rcv pieces ≡ returned (some text, []))
        ⊎ (client_socket_rcv pieces ≡ returned (none, []))
  unfolding client_socket_rcv
  client_socket_rcv_prefix = receive_prefix (λ s. false) text is short (λ s r e. refl)

  pub server_socket_rcv_prefix :
      (pieces : List (List ℕ)) (rest : List ℕ)
      → All IsFilled pieces
      → flat pieces ++ rest ≡ frame text
      → (server_socket_rcv pieces ≡ returned (some text, []))
        ⊎ (server_socket_rcv pieces ≡ returned (none, []))
  unfolding server_socket_rcv
  server_socket_rcv_prefix =
      receive_prefix is_done text is short (λ s r e. is_done-part text is s r e)

  -- Of a frame whose text has no zero, no "+DONE+" and no end marker before its own, and is
  -- shorter than 1,000 characters, a part but not the whole comes in pieces that are not empty,
  -- and then recv fails: client_socket_rcv reports it, and leaves the pieces that come after.
  client_socket_rcv_cut :
      (pieces : List (List ℕ)) (rest : List ℕ) (more : List (List ℕ))
      → All IsFilled pieces
      → flat pieces ++ rest ≡ frame text
      → 0 < length rest
      → client_socket_rcv (pieces ++ [] ∷ more) ≡ returned (none, more)
  unfolding client_socket_rcv
  client_socket_rcv_cut pieces rest more h whole left =
      receive_cut (λ s. false) text is short (λ s r e. refl) ([] ∷ more) more
        (λ gathered. receive_closed (λ s. false) gathered more) pieces [] rest h whole left
