-- ===== src/Spsc.antt =====
-- include/musicrat/utility/spsc_queue.hpp: a ring for one producer and one consumer, as calls of
-- its two operations and as interleavings of their atomic steps. `Capacity` is the number of
-- cells. Memory is sequentially consistent here; the acquire and release marks of the code are
-- what makes the order of each side's steps visible to the other.
pub mod Steps
use music_ra_t.Common.{
  ℕ, ◌+◌, ◌%◌, List, [], ◌∷◌, ◌++◌, Bool, true, false, Option, none, some, length, get_elem?, set,
  ◌==◌, if◌then◌else◌,
}

pub record Queue (A : Type 0) : Type 0 where
  pub values : List A
  pub head : ℕ
  pub tail : ℕ

module _ {A : Type 0} where
  abbrev pub next_index : Queue A → ℕ → ℕ
  next_index q i = (i + 1) % length q.values

  pub push : Queue A → A → Bool × Queue A
  push q value =
      if next_index q q.head == q.tail
      then (false, q)
      else (true, record q { values = set q.values q.head value; head = next_index q q.head })

  -- The value that goes out through the argument, if there is one.
  pub pop : Queue A → Option A × Queue A
  pop q =
      if q.tail == q.head
      then (none, q)
      else (get_elem? q.values q.tail, record q { tail = next_index q q.tail })
