-- ===== src/Queue.antt =====
-- q.c: the ring buffer between the file reader and the sender. A pointer is an address, and `NULL`
-- in a slot of `e` is `none`. The counters are ints that stay below `max_size`.
pub mod Fifo
pub mod Filled
pub mod Print
pub mod Programs
pub mod Refine
pub mod View
mod Tests
use spsc.Prelude.{
  ℕ, ◌+◌, ◌-◌, Bool, true, false, Option, none, some, List, ◌==◌, leb, ltb, if◌then◌else◌,
  get_elem?, set, replicate,
}

-- `Elem`: what the producer puts in the ring, a text and its size
pub record Elem : Type 0 where
  pub sz : ℕ
  pub line : ℕ

-- `queue`
pub record Queue : Type 0 where
  pub max_size : ℕ
  pub curr_size : ℕ
  pub head : ℕ
  pub tail : ℕ
  pub e : List (Option Elem)

-- `*a` after the call, where `a` points to `q->head` or `q->tail`
unfoldable pub add_counter : ℕ → ℕ → ℕ
add_counter max_size a = if leb max_size (a + 1) then 0 else a + 1

-- `none` is the failed assertion on `max_size`.
unfoldable pub q_init : ℕ → Option Queue
q_init max_size =
    if ltb 0 max_size
    then some (record {
      max_size = max_size;
      curr_size = 0;
      head = 0;
      tail = 0;
      e = replicate max_size none;
    })
    else none

unfoldable pub q_full : Queue → Bool
q_full q = q.curr_size == q.max_size

unfoldable pub q_empty : Queue → Bool
q_empty q = q.curr_size == 0

unfoldable pub q_add : Queue → ℕ → ℕ → Bool × Queue
q_add q str_elem sz = if q.curr_size == q.max_size then (false, q) else (
  true,
  record q {
    e = set q.e q.head (some (record { sz = sz; line = str_elem }));
    head = add_counter q.max_size q.head;
    curr_size = q.curr_size + 1;
  },
)

-- the pointer in a slot; outside the array there is none to return
abbrev pub slot : List (Option Elem) → ℕ → Option Elem
slot e i = elim (get_elem? e i) [ none ↦ none | some p ↦ p ]

-- `none` is `NULL`.
unfoldable pub q_remove : Queue → Option Elem × Queue
q_remove q = if q.curr_size == 0 then (none, q) else (
  slot q.e q.tail,
  record q { tail = add_counter q.max_size q.tail; curr_size = q.curr_size - 1 },
)
