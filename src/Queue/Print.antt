-- ===== src/Queue/Print.antt =====
-- `print_q` of q.c: the sizes of the ring, then a line for each of the first `curr_size` slots. The
-- parameters are what `%d` prints, and the text that a line's address points to.
use spsc.Prelude.{
  ℕ, zero, suc, ◌+◌, Option, none, some, List, [], ◌++◌, codes, Run, returned, undefined, ◌>>=◌,
}
use spsc.Queue.{Elem, Queue, slot}

module _ (print_int : ℕ → List ℕ) (text_at : ℕ → List ℕ) where
  -- `printf("value [%d]-><%s> of size %d\n", i, q->e[i]->line, q->e[i]->sz);`
  unfoldable pub print_elem : ℕ → Elem → List ℕ
  print_elem i p =
      codes "value ["
      ++ (print_int i
          ++ (codes "]-><"
              ++ (text_at p.line ++ (codes "> of size " ++ (print_int p.sz ++ codes "\n")))))

  -- A slot that holds `NULL` has no `line`.
  abbrev pub print_slot : ℕ → Run (List ℕ) → Option Elem → Run (List ℕ)
  print_slot i rest none = undefined
  print_slot i rest (some p) = rest >>= λ values. returned (print_elem i p ++ values)

  -- The loop, with the rounds left.
  unfoldable pub print_from : ℕ → ℕ → List (Option Elem) → Run (List ℕ)
  print_from zero i e = returned []
  print_from (suc rounds) i e = print_slot i (print_from rounds (i + 1) e) (slot e i)

  -- what is printed
  unfoldable pub print_q : Queue → Run (List ℕ)
  unfolding print_from
  print_q q =
      let sizes =
        codes "q max_size is "
        ++ (print_int q.max_size
            ++ (codes ", and current_size is " ++ (print_int q.curr_size ++ codes "\n."))) in
      print_from q.curr_size 0 q.e >>= λ values.
      returned (sizes ++ (codes "q values are" ++ values))
