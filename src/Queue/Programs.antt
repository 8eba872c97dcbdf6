-- ===== src/Queue/Programs.antt =====
-- The test programs `T1` and `T2` of q.c. A literal is its address, so that `"madhav" == be->line`
-- compares addresses, and a compiler stores equal literals of one function once. The memory that the
-- two programs never free is left out.
use spsc.Prelude.{
  ℕ, Bool, true, false, not, Option, none, some, List, ◌++◌, ◌==◌, Run, returned, assertion_failed,
  undefined, ◌>>=◌, ◌>>◌, check, given,
}
use spsc.Queue.{Elem, Queue, q_init, q_add, q_remove}
use spsc.Queue.Print.{print_q}

-- `assert(result == q_add(q, line, sz))`, with the ring after the call
unfoldable pub expect_add : Bool → ℕ → ℕ → Queue → Run Queue
expect_add true line sz q = let (done, q') = q_add q line sz in check done >> returned q'
expect_add false line sz q = let (done, q') = q_add q line sz in check (not done) >> returned q'

-- `be = q_remove(q); assert(literal == be->line);`
unfoldable pub line_is : ℕ → Option Elem → Run (Unit {0})
line_is literal none = undefined
line_is literal (some be) = check (literal == be.line)

unfoldable pub expect_remove : ℕ → Queue → Run Queue
unfolding line_is
expect_remove literal q = let (be, q') = q_remove q in line_is literal be >> returned q'

-- `be = q_remove(q); assert(NULL == be);`
unfoldable pub is_null : Option Elem → Run (Unit {0})
is_null none = returned tt
is_null (some be) = assertion_failed

unfoldable pub expect_null : Queue → Run Queue
unfolding is_null
expect_null q = let (be, q') = q_remove q in is_null be >> returned q'

abbrev pub madhav : ℕ
madhav = 1

abbrev pub gaiwkad : ℕ
gaiwkad = 2

abbrev pub wow : ℕ
wow = 3

abbrev pub malhar : ℕ
malhar = 4

abbrev pub bhau : ℕ
bhau = 5

module _ (print_int : ℕ → List ℕ) (text_at : ℕ → List ℕ) where
  -- what the program prints
  unfoldable pub t1 : Run (List ℕ)
  unfolding expect_add expect_remove expect_null
  t1 = do
    q ← given (q_init 3)
    q ← expect_add true madhav 5 q
    q ← expect_add true gaiwkad 10 q
    q ← expect_add true wow 15 q
    q ← expect_remove madhav q
    q ← expect_add true malhar 20 q
    q ← expect_add false bhau 25 q
    printed ← print_q print_int text_at q
    q ← expect_remove gaiwkad q
    q ← expect_remove wow q
    q ← expect_remove malhar q
    q ← expect_null q
    returned printed

  unfoldable pub t2 : Run (List ℕ)
  unfolding expect_add expect_remove expect_null
  t2 = do
    q ← given (q_init 1)
    q ← expect_add true madhav 5 q
    q ← expect_add false gaiwkad 10 q
    q ← expect_add false wow 15 q
    q ← expect_remove madhav q
    q ← expect_add true malhar 20 q
    q ← expect_add false bhau 25 q
    printed ← print_q print_int text_at q
    q ← expect_remove malhar q
    q ← expect_null q
    returned printed

  -- `main`
  unfoldable pub program : Run (List ℕ)
  unfolding t1 t2
  program = do first ← t1; second ← t2; returned (first ++ second)
