-- ===== src/DeckControlQuantizer/Output.antt =====
-- The numbers: how many events are put out, wait and are dropped, and the order of the output.
use music_ra_t.Common.{
  ℕ, ◌+◌, ◌≡◌, ap, ◌≤◌, ◌<◌, ◌%◌, ◌^◌, inl, inr, List, [], ◌∷◌, ◌&&◌, ◌||◌, Option, none, some,
  arith, Bool-cases, ◌==◌, All, length, length-append, ltb, leb,
}
use music_ra_t.Common.Floats.{Floats}
use music_ra_t.Protocol.{DeckControlEvent, TransportBlock}
use music_ra_t.Timeline.{insert_event}
use music_ra_t.Timeline.Order.{
  IsSorted, insert_event-IsSorted, insert_event-insert_sorted, All-insert_sorted,
  length-insert_event,
}
use music_ra_t.DeckControlQuantizer.{
  PendingEvent, Quantizing, advancing, boundary_offset, target_of, insert, queue_event, schedule,
  aimed, publish_one, publish_each, publish_due, deferred, take_event, take_events, published_due,
}

module _ (fl : Floats) (max_events frame_count : ℕ) where
  open fl use {F}

  -- `n` events have been taken in.
  abbrev pub Accounted : ℕ → Quantizing F → Type 0
  Accounted n q =
      (length q.events ≤ max_events)
      × (length q.pending ≤ max_events)
      × IsSorted (λ e. e.sample_offset) q.events
      × All (λ e. e.sample_offset < frame_count) q.events
      × ((length q.events + length q.pending + q.dropped) % 2 ^ 32 ≡ n % 2 ^ 32)

  pub insert-Accounted :
      (e : DeckControlEvent F) (n : ℕ) (q : Quantizing F)
      → e.sample_offset < frame_count
      → Accounted n q
      → Accounted (n + 1) (insert fl max_events e q)
  unfolding insert
  insert-Accounted e n q h (le_, lp, s, a, c) =
      elim (Bool-cases (leb max_events (length q.events))) [
        | inl t ↦ rw t (le_, lp, s, a, omega (arith, c))
        | inr t ↦ rw t (
          ground (arith, grown),
          lp,
          insert_event-IsSorted (λ x. x.sample_offset) e q.events s,
          rw (insert_event-insert_sorted (λ x. x.sample_offset) e q.events s) (
              All-insert_sorted (λ x. x.sample_offset) (λ x. x.sample_offset < frame_count) e
                q.events h a),
          omega (arith, c, grown),
        )
      ]
    where
      grown : length (insert_event (λ x. x.sample_offset) e q.events) ≡ length q.events + 1
      grown = omega (arith, length-insert_event (λ x. x.sample_offset) e q.events s)

  pub queue_event-Accounted :
      (e : DeckControlEvent F) (b : F) (n : ℕ) (q : Quantizing F)
      → Accounted n q
      → Accounted (n + 1) (queue_event fl max_events e b q)
  unfolding queue_event
  queue_event-Accounted e b n q (le_, lp, s, a, c) =
      elim (Bool-cases (leb max_events (length q.pending))) [
        | inl t ↦ rw t (le_, lp, s, a, omega (arith, c))
        | inr t ↦ rw t (
          le_,
          ground (arith, length-append q.pending ((record { event = e; target_beat = b }) ∷ [])),
          s,
          a,
          omega (arith, c, length-append q.pending ((record { event = e; target_beat = b }) ∷ [])),
        )
      ]

  pub schedule-Accounted :
      (e : DeckControlEvent F) (t : TransportBlock F) (n : ℕ) (q : Quantizing F)
      → Accounted n q
      → Accounted (n + 1) (schedule fl max_events e t frame_count q)
  unfolding schedule
  schedule-Accounted e t n q h =
      elim (Bool-cases
        (advancing fl t && ltb (boundary_offset fl (target_of fl e t) t) frame_count)) [
          | inl d ↦ rw d (insert-Accounted _ n q (ground arith) h)
          | inr d ↦ rw d (queue_event-Accounted e (target_of fl e t) n q h)
        ]

  recount : (n m : ℕ) (q : Quantizing F) → n ≡ m → Accounted n q → Accounted m q
  recount n m q e (le_, lp, s, a, c) = (le_, lp, s, a, omega (arith, c, e))

  insert-pending :
      (e : DeckControlEvent F) (q : Quantizing F) → (insert fl max_events e q).pending ≡ q.pending
  unfolding insert
  insert-pending e q = ground arith

  pub publish_one-Accounted :
      (p : PendingEvent F) (t : TransportBlock F) (n : ℕ) (q : Quantizing F)
      → length q.pending < max_events
      → Accounted n q
      → Accounted (n + 1) (publish_one fl max_events p t frame_count q)
        × (length (publish_one fl max_events p t frame_count q).pending ≤ length q.pending + 1)
  unfolding publish_one
  publish_one-Accounted p t n q room h =
      elim (Bool-cases (advancing fl t && ltb (boundary_offset fl p.target_beat t) frame_count)) [
        | inl d ↦ rw d (
          insert-Accounted (moved (boundary_offset fl p.target_beat t)) n q (ground arith) h,
          omega (arith, ap length (insert-pending (moved (boundary_offset fl p.target_beat t)) q)),
        )
        | inr d ↦ rw d (
          (
            h.0,
            omega (arith, length-append q.pending (p ∷ [])),
            h.2,
            h.3,
            omega (arith, h.4, length-append q.pending (p ∷ [])),
          ),
          omega (arith, length-append q.pending (p ∷ [])),
        )
      ]
    where
      moved : ℕ → DeckControlEvent F
      moved o = record (p.event) { sample_offset = o }

  publish_each-Accounted :
      (ps : List (PendingEvent F)) (t : TransportBlock F) (n : ℕ) (q : Quantizing F)
      → length q.pending + length ps ≤ max_events
      → Accounted n q
      → Accounted (n + length ps) (publish_each fl max_events ps t frame_count q)
  unfolding publish_each
  publish_each-Accounted [] t n q room (le_, lp, s, a, c) = (le_, lp, s, a, omega (arith, c))
  publish_each-Accounted (p ∷ ps) t n q room h =
      let one = publish_one-Accounted (aimed fl max_events p t) t n q (omega arith) h in
      let rest = publish_each-Accounted ps t (n + 1) _ (omega (arith, one.1)) one.0 in
      (rest.0, rest.1, rest.2, rest.3, omega (arith, rest.4))

  pub publish_due-Accounted :
      (t : Option (TransportBlock F)) (ps : List (PendingEvent F))
      → length ps ≤ max_events
      → Accounted (length ps) (
          published_due fl max_events t frame_count
            (record { events = []; dropped = 0; pending = ps }))
  unfolding published_due publish_due
  publish_due-Accounted none ps h = (omega arith, h, tt, tt, omega arith)
  publish_due-Accounted (some t) ps h = recount (0 + length ps) (length ps) _ (omega arith) (
      publish_each-Accounted ps t 0 _ (omega arith) (omega arith, omega arith, tt, tt, omega arith))

  pub deferred-Accounted :
      (e : DeckControlEvent F) (t : Option (TransportBlock F)) (n : ℕ) (q : Quantizing F)
      → Accounted n q
      → Accounted (n + 1) (deferred fl max_events e t frame_count q)
  unfolding deferred
  deferred-Accounted e none n q h = queue_event-Accounted e fl.nan n q h
  deferred-Accounted e (some t) n q h = schedule-Accounted e t n q h

  pub take_event-Accounted :
      (t : Option (TransportBlock F)) (e : DeckControlEvent F) (n : ℕ) (q : Quantizing F)
      → Accounted n q
      → Accounted (n + 1) (take_event fl max_events t frame_count e q)
  unfolding take_event
  take_event-Accounted t e n q h =
      elim (Bool-cases (leb frame_count e.sample_offset || ltb 2 e.quantization)) [
        | inl x ↦ rw x (h.0, h.1, h.2, h.3, omega (arith, h.4))
        | inr x ↦ elim (Bool-cases (e.quantization == 0)) [
          | inl k ↦ rw (x, k) (insert-Accounted e n q (ground arith) h)
          | inr k ↦ rw (x, k) (deferred-Accounted e t n q h)
        ]
      ]

  pub take_events-Accounted :
      (t : Option (TransportBlock F)) (es : List (DeckControlEvent F)) (n : ℕ) (q : Quantizing F)
      → Accounted n q
      → Accounted (n + length es) (take_events fl max_events t frame_count es q)
  unfolding take_events
  take_events-Accounted t [] n q (le_, lp, s, a, c) = (le_, lp, s, a, omega (arith, c))
  take_events-Accounted t (e ∷ es) n q h =
      let rest = take_events-Accounted t es (n + 1) _ (take_event-Accounted t e n q h) in
      (rest.0, rest.1, rest.2, rest.3, omega (arith, rest.4))
