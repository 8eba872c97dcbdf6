-- ===== src/Segment.antt =====
-- The bytes of the shared segment, which both programs write and read at an offset from its start.
-- Outside the segment the C standard says nothing.
pub mod Slices
use spsc.Prelude.{
  ℕ, ◌+◌, List, ◌++◌, leb, if◌then◌else◌, length, take, drop, Run, returned, undefined,
}

unfoldable pub store : ℕ → List ℕ → List ℕ → Run (List ℕ)
store at bytes segment =
    if leb (at + length bytes) (length segment)
    then returned (take at segment ++ (bytes ++ drop (at + length bytes) segment))
    else undefined

unfoldable pub load : ℕ → ℕ → List ℕ → Run (List ℕ)
load at len segment =
    if leb (at + len) (length segment) then returned (take len (drop at segment)) else undefined
