-- ===== src/Spsc/Steps.antt =====
-- The atomic steps of the two threads.
pub mod Calls
pub mod Fifo
use music_ra_t.Common.{
  ℕ, List, [], ◌∷◌, ◌++◌, Bool, true, false, Option, none, some, length, get_elem?, set, ◌==◌,
  if◌then◌else◌,
}
use music_ra_t.Spsc.{Queue, next_index}

-- Where the producer is in `push`: it has seen a free cell, or has written it.
pub data Producer (A : Type 0) : Type 0 where
  resting : Producer A
  checked : A → ℕ → ℕ → Producer A  -- the value, `head` and `next`
  written : A → ℕ → Producer A  -- the value and `next`

-- Where the consumer is in `pop`: it has seen a full cell, or has read it.
pub data Consumer (A : Type 0) : Type 0 where
  resting : Consumer A
  checked : ℕ → Consumer A  -- `tail`
  taken : ℕ → A → Consumer A  -- `tail` and the value

-- `sent` are the values whose `push` has returned true, `got` those that `pop` has given.
pub record System (A : Type 0) : Type 0 where
  pub queue : Queue A
  pub producer : Producer A
  pub consumer : Consumer A
  pub sent : List A
  pub got : List A

pub data Action (A : Type 0) : Type 0 where
  offer : A → Action A  -- the producer calls `push`, if it is at rest
  produce : Action A  -- the producer's next step
  poll : Action A  -- the consumer calls `pop`, if it is at rest
  consume : Action A  -- the consumer's next step

module _ {A : Type 0} where
  abbrev put_queue : System A → Queue A → System A
  put_queue s q = record s { queue = q }

  pub offered : System A → A → Producer A → System A
  offered s v Producer.resting =
      let next = next_index s.queue s.queue.head in
      if next == s.queue.tail
      then s
      else record s { producer = Producer.checked v s.queue.head next }
  offered s v _ = s

  pub produced : System A → Producer A → System A
  produced s Producer.resting = s
  produced s (Producer.checked v head next) = record s {
    queue = record (s.queue) { values = set s.queue.values head v };
    producer = written v next;
  }
  produced s (written v next) = record s {
    queue = record (s.queue) { head = next };
    producer = Producer.resting;
    sent = s.sent ++ v ∷ [];
  }

  pub polled : System A → Consumer A → System A
  polled s Consumer.resting =
      if s.queue.tail == s.queue.head
      then s
      else record s { consumer = Consumer.checked s.queue.tail }
  polled s _ = s

  pub read_cell : System A → ℕ → Option A → System A
  read_cell s tail none = s
  read_cell s tail (some v) = record s { consumer = taken tail v }

  pub consumed : System A → Consumer A → System A
  unfolding read_cell
  consumed s Consumer.resting = s
  consumed s (Consumer.checked tail) = read_cell s tail (get_elem? s.queue.values tail)
  consumed s (taken tail v) = record s {
    queue = record (s.queue) { tail = next_index s.queue tail };
    consumer = Consumer.resting;
    got = s.got ++ v ∷ [];
  }

  pub step : System A → Action A → System A
  unfolding offered produced polled consumed
  step s (offer v) = offered s v s.producer
  step s produce = produced s s.producer
  step s poll = polled s s.consumer
  step s consume = consumed s s.consumer

  pub run : System A → List (Action A) → System A
  unfolding step
  run s [] = s
  run s (a ∷ as_) = run (step s a) as_

  unfoldable pub start : List A → System A
  start values = record {
    queue = record { values = values; head = 0; tail = 0 };
    producer = Producer.resting;
    consumer = Consumer.resting;
    sent = [];
    got = [];
  }
