-- ===== src/Asgard/Programs.antt =====
-- The test programs of memory.c on the bytes of a segment, where an address is a place in it.
use spsc.Prelude.{
  ℕ, zero, suc, ◌+◌, ◌-◌, ◌*◌, ◌==◌, List, [], ◌∷◌, ◌++◌, ltb, if◌then◌else◌, drop, length,
  c_string, codes, Run, returned, undefined, check, ◌>>=◌, ◌>>◌,
}
use spsc.Segment.{store, load}
use spsc.Asgard.{SharedMemory, minit}

-- the first of these bytes
abbrev first : List ℕ → ℕ
first [] = 0
first (byte ∷ bytes) = byte

-- "for (c = 'a'; c <= 'z'; c++) *s++ = c;", with the rounds left
unfoldable pub write_letters : ℕ → ℕ → ℕ → List ℕ → Run (List ℕ)
write_letters zero c s segment = returned segment
write_letters (suc rounds) c s segment =
    store s (c ∷ []) segment >>= write_letters rounds (c + 1) (s + 1)

-- What is printed, and the bytes afterwards.
unfoldable pub test_write : ℕ → List ℕ → Run (List ℕ × List ℕ)
unfolding write_letters
test_write s segment = do
  done ← load (s - 1) 1 segment
  if first done == 42 then returned (codes "already wrote\n", segment) else do
    written ← write_letters 26 97 s segment
    marked ← store (s - 1) (42 ∷ []) written
    returned (codes "writing now\n", marked)

-- what is printed of `str`; without a zero `%s` reads on behind the segment
abbrev shown : List ℕ → Run (List ℕ)
shown str =
    if ltb (length (c_string str)) (length str)
    then returned (codes "str is <" ++ (c_string str ++ codes ">\n"))
    else undefined

-- What is printed.
unfoldable pub test_read : ℕ → List ℕ → Run (List ℕ)
test_read s segment = do
  done ← load (s - 1) 1 segment
  if first done == 42 then shown (drop s segment) else returned []

-- the loop of `testBigWrite`, with the rounds left
unfoldable pub write_zeros : ℕ → ℕ → List ℕ → Run (List ℕ)
write_zeros zero s segment = returned segment
write_zeros (suc rounds) s segment = store s (0 ∷ []) segment >>= write_zeros rounds (s + 1)

-- the size of the test's segment
abbrev pub big_size : ℕ
big_size = 100 * 1024 * 1024

unfoldable pub test_big_write : ℕ → List ℕ → Run (List ℕ)
unfolding write_zeros
test_big_write s segment = write_zeros (big_size - 1) s segment

-- What is printed before `exit(0)`, and the bytes then.
unfoldable pub test_main : SharedMemory → List ℕ → Run (List ℕ × List ℕ)
test_main os segment = do
  let (code, ms) =
      minit os (record { sz = big_size; pattern = 0xdead_beef; key = 5678; shm = 0; shmid = 0 })
  check (code == 0)
  (wrote, written) ← test_write 1 segment
  read ← test_read 1 written
  zeroed ← test_big_write 1 written
  returned (wrote ++ read, zeroed)
