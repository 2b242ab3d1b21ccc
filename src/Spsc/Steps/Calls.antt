-- ===== src/Spsc/Steps/Calls.antt =====
-- A call that nothing interrupts is the composition of its atomic steps.
use music_ra_t.Common.{
  ◌≡◌, refl, inl, inr, [], ◌∷◌, ◌++◌, none, some, get_elem?, ◌==◌, if◌then◌else◌, Bool-cases,
  append-nil,
}
use music_ra_t.Spsc.{next_index, push, pop}
use music_ra_t.Spsc.Steps.{
  Producer, Consumer, System, offer, produce, poll, consume, step, run, offered, produced, polled,
  consumed, read_cell,
}

module _ {A : Type 0} where
  -- From a producer at rest, its three steps with no other between them do what `push` does: the
  -- queue is the one that `push` leaves, the producer is at rest, and the value is among those
  -- sent exactly if `push` returns true.
  run-push :
      (s : System A) (v : A)
      → s.producer ≡ Producer.resting
      → ((run s (offer v ∷ produce ∷ produce ∷ [])).queue ≡ (push s.queue v).1)
        × ((run s (offer v ∷ produce ∷ produce ∷ [])).producer ≡ Producer.resting)
        × ((run s (offer v ∷ produce ∷ produce ∷ [])).sent
            ≡ (if (push s.queue v).0 then s.sent ++ v ∷ [] else s.sent))
  unfolding run step offered produced push
  run-push s v h = elim (Bool-cases (next_index s.queue s.queue.head == s.queue.tail)) [
    | inl t ↦ rw (h, t) (refl, refl, refl)
    | inr t ↦ rw (h, t) (refl, refl, refl)
  ]

  -- From a consumer at rest before a cell with a value, its three steps with no other between them
  -- do what `pop` does: the queue is the one that `pop` leaves, and the value is received exactly
  -- if `pop` gives one.
  run-pop :
      (s : System A) (v : A)
      → s.consumer ≡ Consumer.resting
      → get_elem? s.queue.values s.queue.tail ≡ some v
      → ((run s (poll ∷ consume ∷ consume ∷ [])).queue ≡ (pop s.queue).1)
        × ((run s (poll ∷ consume ∷ consume ∷ [])).got
            ≡ s.got ++ (if s.queue.tail == s.queue.head then [] else v ∷ []))
        × ((pop s.queue).0 ≡ (if s.queue.tail == s.queue.head then none else some v))
  unfolding run step polled consumed read_cell pop
  run-pop s v h g = elim (Bool-cases (s.queue.tail == s.queue.head)) [
    | inl t ↦ rw (h, t, append-nil s.got) (refl, refl, refl)
    | inr t ↦ rw (h, t, g) (refl, refl, refl)
  ]
