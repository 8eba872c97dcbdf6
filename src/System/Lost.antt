-- ===== src/System/Lost.antt =====
-- The other side of Loki: one who writes into the buffer between the digest and the check of it, and
-- one who writes between the check and the use.
use spsc.Prelude.{ℕ, ◌≡◌, List, length, returned}
use spsc.Outside.{Outside}
use spsc.Segment.{load}
use spsc.Asgard.{Asgard}
use spsc.System.Ready.{Ready}

-- one who changes bytes of a segment, and leaves `bytes` where the buffer is
abbrev pub Leaves : ℕ → ℕ → List ℕ → (List ℕ → List ℕ) → Type 0
Leaves size len bytes loki =
    (s : List ℕ)
    → length s ≡ size
    → (length (loki s) ≡ size) × (load 1024 len (loki s) ≡ returned bytes)

abbrev Keeps : (List ℕ → List ℕ) → Type 0
Keeps loki = (s : List ℕ) → loki s ≡ s
