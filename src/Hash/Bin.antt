-- ===== src/Hash/Bin.antt =====
-- `toBin` of util.c, which means to read back what `toDec` prints.
use Prim.Native.Nat.{bit_and}
use spsc.Prelude.{
  ℕ, zero, suc, ◌+◌, ◌*◌, ◌/◌, Option, none, some, List, ltb, get_elem?, Run, returned, undefined,
  check, ◌>>=◌, ◌>>◌,
}
use spsc.Hash.{nibbles, write}

-- `r[i]`
abbrev pub read : Option ℕ → Run ℕ
read none = undefined
read (some c) = returned c

-- `nibbles(hi) << 4 & 0xF0) & (nibbles(lo) & 0x0F)`
unfoldable pub joined : ℕ → ℕ → ℕ
joined hi lo = bit_and (bit_and (nibbles hi * 16) 0xf0) (bit_and (nibbles lo) 0x0f)

-- The loop from `i` and `j` on, with the rounds left.
unfoldable pub to_bin_from : ℕ → ℕ → ℕ → List ℕ → List ℕ → ℕ → Run (List ℕ)
to_bin_from zero i j r b blen = returned b
to_bin_from (suc rounds) i j r b blen = do
  check (ltb j blen)
  hi ← read (get_elem? r i)
  lo ← read (get_elem? r (i + 1))
  b' ← write b j (joined hi lo)
  to_bin_from rounds (i + 2) (j + 1) r b' blen

-- `i` takes the even numbers below `rlen`.
unfoldable pub to_bin : List ℕ → ℕ → List ℕ → ℕ → Run (List ℕ)
to_bin r rlen b blen = to_bin_from ((rlen + 1) / 2) 0 0 r b blen
