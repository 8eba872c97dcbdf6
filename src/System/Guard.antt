-- ===== src/System/Guard.antt =====
-- What the digest guards against: one who writes into the segment before the check of it, in any way.
use mathlib.Core.Path.{subst}
use spsc.Prelude.{ℕ, ◌≡◌, ◌⊎◌, inl, inr, sym, List, [], ◌++◌, length, take, drop}
use spsc.Outside.{Outside}
use spsc.Asgard.{Asgard}
use spsc.Thor.{Thor}
use spsc.System.{Event, exchanged, interfered, answer_lost, send_failed}
use spsc.Thor.Replies.{wrote, Able, took-Able}
use spsc.System.Exchange.{IsFair}
use spsc.System.Ready.{Ready}

-- Both messages pass, in pieces, and no one writes between the check and the use.
abbrev pub IsGuarded : Event → Type 0
IsGuarded (exchanged loki loki' cut back) =
    ((s : List ℕ) → length (loki s) ≡ length s)
    × ((s : List ℕ) → loki' s ≡ s)
    × IsFair cut
    × IsFair back
IsGuarded (interfered first loki loki' last cut back) = ⊥
IsGuarded (answer_lost cut) = ⊥
IsGuarded send_failed = ⊥

-- What may arrive of a file that is sent in pieces of `c` bytes: in place of a piece, one with the same
-- length and the same digest, or nothing.
pub data Arrives (o : Outside) (c : ℕ) : List ℕ → List ℕ → Type 0 where
  ended : Arrives o c [] []
  passed :
      (unread bytes out : List ℕ)
      → o.md5 bytes ≡ o.md5 (take c unread)
      → length bytes ≡ length (take c unread)
      → Arrives o c (drop c unread) out
      → Arrives o c unread (bytes ++ out)
  missed : (unread out : List ℕ) → Arrives o c (drop c unread) out → Arrives o c unread out

-- what a round does to the consumer
abbrev pub Served : Outside → List ℕ → Thor → Thor → Type 0
Served o chunk thor thor' =
    (thor' ≡ thor)
    ⊎ ((bytes : List ℕ) × (o.md5 bytes ≡ o.md5 chunk)
        × (length bytes ≡ length chunk)
        × (thor' ≡ wrote bytes thor))

pub Served-Able :
    (o : Outside) (chunk : List ℕ) (thor thor' : Thor)
    → Served o chunk thor thor'
    → Able o thor
    → Able o thor'
Served-Able o chunk thor thor' (inl e) able = subst (Able o) (sym e) able
Served-Able o chunk thor thor' (inr (bytes, digest, size, e)) able =
    subst (Able o) (sym e) (took-Able o bytes bytes thor able)
