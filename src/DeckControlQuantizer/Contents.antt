-- ===== src/DeckControlQuantizer/Contents.antt =====
-- The events themselves: each that waited or came in is put out, waits, or is one of those dropped.
use mathlib.Core.Path.{subst}
use mathlib.Core.List.{Perm, perm_middle}
use mathlib.Core.List.Perm
use music_ra_t.Common.{
  ℕ, ◌+◌, ◌≡◌, refl, ◌≤◌, ◌%◌, ◌^◌, inl, inr, List, [], ◌∷◌, ◌++◌, map, append-nil, Bool, true,
  false, ◌-◌, ◌&&◌, ◌||◌, Option, none, some, arith, Bool-cases, ◌==◌, length, length-append, ltb,
  leb, add_u32,
}
use music_ra_t.Common.Floats.{Floats}
use music_ra_t.Protocol.{Block, DeckControlEvent, TransportBlock}
use music_ra_t.Timeline.Order.{IsSorted, insert_event-perm, length-insert_event}
use music_ra_t.DeckControlQuantizer.{
  PendingEvent, Quantizing, advancing, boundary_offset, target_of, insert, queue_event, schedule,
  aimed, publish_one, publish_each, publish_due, deferred, take_event, take_events, published_due,
  usable_transport, input_block, quantize,
}
use music_ra_t.DeckControlQuantizer.Output.{
  Accounted, publish_one-Accounted, publish_due-Accounted, take_event-Accounted,
  take_events-Accounted,
}

module _ (fl : Floats) (max_events frame_count : ℕ) where
  open fl use {F}

  -- An event without its place in the block, which a boundary replaces.
  abbrev pub placeless : DeckControlEvent F → DeckControlEvent F
  placeless e = record e { sample_offset = 0 }

  abbrev pub waiting : PendingEvent F → DeckControlEvent F
  waiting p = placeless p.event

  abbrev bit : Bool → ℕ
  bit true = 1
  bit false = 0

  -- The number of events that lie behind the block or have an unknown quantization.
  unfoldable pub refused_count : List (DeckControlEvent F) → ℕ
  refused_count [] = 0
  refused_count (e ∷ es) =
      bit (leb frame_count e.sample_offset || ltb 2 e.quantization) + refused_count es

  length-map : {A B : Type 0} (f : A → B) (xs : List A) → length (map f xs) ≡ length xs
  length-map f [] = refl
  length-map f (x ∷ xs) = omega (arith, length-map f xs)

  -- The events that came are, in some order, those put out, those that wait, and the lost ones, and
  -- `dropped` counts these modulo 2^32. No more are lost than `refused`, and than do not fit.
  pub record Keeps (refused : ℕ) (came : List (DeckControlEvent F)) (q : Quantizing F)
      : Type 0 where
    pub lost : List (DeckControlEvent F)
    pub same : Perm (map placeless q.events ++ (map waiting q.pending ++ lost)) came
    pub counted : q.dropped % 2 ^ 32 ≡ length lost % 2 ^ 32
    pub number : length q.events + length q.pending + length lost ≡ length came
    pub few : length lost ≤ refused + (length came - max_events)

  Keeps-perm :
      (m n : ℕ) (came came' : List (DeckControlEvent F)) (q : Quantizing F)
      → Perm came came'
      → length came ≡ length came'
      → m ≡ n
      → Keeps m came q
      → Keeps n came' q
  Keeps-perm m n came came' q h l e k = record {
    lost = k.lost;
    same = Perm.trans k.same h;
    counted = k.counted;
    number = omega (arith, k.number);
    few = omega (arith, k.few);
  }

  dropped-Keeps :
      (e : DeckControlEvent F) (m n : ℕ) (came : List (DeckControlEvent F)) (q : Quantizing F)
      (k : Keeps m came q)
      → length k.lost + 1 ≤ n + (length came + 1 - max_events)
      → Keeps n (placeless e ∷ came) (record q { dropped = add_u32 q.dropped 1 })
  dropped-Keeps e m n came q k h = record {
    lost = placeless e ∷ k.lost;
    same =
        Perm.trans
          (Perm.append_left (map placeless q.events) (perm_middle (map waiting q.pending) k.lost))
          (Perm.trans (perm_middle (map placeless q.events) (map waiting q.pending ++ k.lost))
            (Perm.cons (placeless e) k.same));
    counted = omega (arith, k.counted);
    number = omega (arith, k.number);
    few = omega (arith, h);
  }

  insert-Keeps :
      (e : DeckControlEvent F) (n : ℕ) (came : List (DeckControlEvent F)) (q : Quantizing F)
      → IsSorted (λ x. x.sample_offset) q.events
      → Keeps n came q
      → Keeps n (placeless e ∷ came) (insert fl max_events e q)
  unfolding insert
  insert-Keeps e n came q s k = elim (Bool-cases (leb max_events (length q.events))) [
    | inl t ↦ rw t (dropped-Keeps e n n came q k (ground (arith, k.number)))
    | inr t ↦ rw t (record {
      lost = k.lost;
      same =
          Perm.trans
            (Perm.append_right (map waiting q.pending ++ k.lost)
              (Perm.map placeless (insert_event-perm (λ x. x.sample_offset) e q.events s)))
            (Perm.cons (placeless e) k.same);
      counted = k.counted;
      number = omega (arith, k.number, length-insert_event (λ x. x.sample_offset) e q.events s);
      few = omega (arith, k.few);
    })
  ]

  waiting_last :
      (ps : List (PendingEvent F)) (p : PendingEvent F) (l : List (DeckControlEvent F))
      → Perm (map waiting (ps ++ p ∷ []) ++ l) (waiting p ∷ (map waiting ps ++ l))
  waiting_last [] p l = Perm.refl (waiting p ∷ l)
  waiting_last (x ∷ ps) p l =
      Perm.trans (Perm.cons (waiting x) (waiting_last ps p l))
        (Perm.swap (waiting p) (waiting x) (map waiting ps ++ l))

  waits-Keeps :
      (p : PendingEvent F) (n : ℕ) (came : List (DeckControlEvent F)) (q : Quantizing F)
      → Keeps n came q
      → Keeps n (waiting p ∷ came) (record q { pending = q.pending ++ p ∷ [] })
  waits-Keeps p n came q k = record {
    lost = k.lost;
    same =
        Perm.trans (Perm.append_left (map placeless q.events) (waiting_last q.pending p k.lost)) (
          Perm.trans (perm_middle (map placeless q.events) (map waiting q.pending ++ k.lost))
            (Perm.cons (waiting p) k.same));
    counted = k.counted;
    number = omega (arith, k.number, length-append q.pending (p ∷ []));
    few = omega (arith, k.few);
  }

  queue_event-Keeps :
      (e : DeckControlEvent F) (b : F) (n : ℕ) (came : List (DeckControlEvent F)) (q : Quantizing F)
      → Keeps n came q
      → Keeps n (placeless e ∷ came) (queue_event fl max_events e b q)
  unfolding queue_event
  queue_event-Keeps e b n came q k = elim (Bool-cases (leb max_events (length q.pending))) [
    | inl t ↦ rw t (dropped-Keeps e n n came q k (ground (arith, k.number)))
    | inr t ↦ rw t (waits-Keeps (record { event = e; target_beat = b }) n came q k)
  ]

  schedule-Keeps :
      (e : DeckControlEvent F) (t : TransportBlock F) (n : ℕ) (came : List (DeckControlEvent F))
      (q : Quantizing F)
      → IsSorted (λ x. x.sample_offset) q.events
      → Keeps n came q
      → Keeps n (placeless e ∷ came) (schedule fl max_events e t frame_count q)
  unfolding schedule
  schedule-Keeps e t n came q s k =
      elim (Bool-cases
        (advancing fl t && ltb (boundary_offset fl (target_of fl e t) t) frame_count)) [
          | inl d ↦ rw d (insert-Keeps _ n came q s k)
          | inr d ↦ rw d (queue_event-Keeps e (target_of fl e t) n came q k)
        ]

  publish_one-Keeps :
      (p : PendingEvent F) (t : TransportBlock F) (n : ℕ) (came : List (DeckControlEvent F))
      (q : Quantizing F)
      → IsSorted (λ x. x.sample_offset) q.events
      → Keeps n came q
      → Keeps n (waiting p ∷ came) (publish_one fl max_events p t frame_count q)
  unfolding publish_one
  publish_one-Keeps p t n came q s k =
      elim (Bool-cases (advancing fl t && ltb (boundary_offset fl p.target_beat t) frame_count)) [
        | inl d ↦ rw d (insert-Keeps _ n came q s k)
        | inr d ↦ rw d (waits-Keeps p n came q k)
      ]

  waiting-aimed :
      (p : PendingEvent F) (t : TransportBlock F) → waiting (aimed fl max_events p t) ≡ waiting p
  unfolding aimed
  waiting-aimed p t = ground arith

  length-middle :
      {A : Type 0} (xs ys : List A) (x : A) → length (xs ++ (x ∷ ys)) ≡ length (x ∷ (xs ++ ys))
  length-middle xs ys x = omega (arith, length-append xs (x ∷ ys), length-append xs ys)

  publish_each-Keeps :
      (ps : List (PendingEvent F)) (t : TransportBlock F) (n m : ℕ)
      (came : List (DeckControlEvent F)) (q : Quantizing F)
      → length q.pending + length ps ≤ max_events
      → Accounted fl max_events frame_count n q
      → Keeps m came q
      → Keeps m (map waiting ps ++ came) (publish_each fl max_events ps t frame_count q)
  unfolding publish_each
  publish_each-Keeps [] t n m came q room h k = k
  publish_each-Keeps (p ∷ ps) t n m came q room h k =
      let a = aimed fl max_events p t in
      let one = publish_one-Accounted fl max_events frame_count a t n q (omega arith) h in
      let out =
        subst (λ e. Keeps m (e ∷ came) (publish_one fl max_events a t frame_count q))
          (waiting-aimed p t) (publish_one-Keeps a t m came q h.2 k) in
      Keeps-perm m m (map waiting ps ++ (waiting p ∷ came)) (waiting p ∷ (map waiting ps ++ came)) _
        (perm_middle (map waiting ps) came) (length-middle (map waiting ps) came (waiting p)) refl
        (publish_each-Keeps ps t (n + 1) m (waiting p ∷ came) _ (omega (arith, one.1)) one.0 out)

  nothing-Keeps :
      (ps : List (PendingEvent F))
      → Keeps 0 (map waiting ps) (record { events = []; dropped = 0; pending = ps })
  nothing-Keeps ps = record {
    lost = [];
    same = rw (append-nil (map waiting ps)) (Perm.refl (map waiting ps));
    counted = refl;
    number = omega (arith, length-map waiting ps);
    few = omega arith;
  }

  publish_due-Keeps :
      (t : Option (TransportBlock F)) (ps : List (PendingEvent F))
      → length ps ≤ max_events
      → Keeps 0 (map waiting ps) (
          published_due fl max_events t frame_count
            (record { events = []; dropped = 0; pending = ps }))
  unfolding published_due publish_due
  publish_due-Keeps none ps h = nothing-Keeps ps
  publish_due-Keeps (some t) ps h =
      subst
        (λ l. Keeps 0 l (
          publish_each fl max_events ps t frame_count
            (record { events = []; dropped = 0; pending = [] })))
        (append-nil (map waiting ps))
        (publish_each-Keeps ps t 0 0 [] _ (omega arith)
          (omega arith, omega arith, tt, tt, omega arith) (nothing-Keeps []))

  deferred-Keeps :
      (e : DeckControlEvent F) (t : Option (TransportBlock F)) (n : ℕ)
      (came : List (DeckControlEvent F)) (q : Quantizing F)
      → IsSorted (λ x. x.sample_offset) q.events
      → Keeps n came q
      → Keeps n (placeless e ∷ came) (deferred fl max_events e t frame_count q)
  unfolding deferred
  deferred-Keeps e none n came q s k = queue_event-Keeps e fl.nan n came q k
  deferred-Keeps e (some t) n came q s k = schedule-Keeps e t n came q s k

  take_event-Keeps :
      (t : Option (TransportBlock F)) (e : DeckControlEvent F) (n : ℕ)
      (came : List (DeckControlEvent F)) (q : Quantizing F)
      → IsSorted (λ x. x.sample_offset) q.events
      → Keeps n came q
      → Keeps
          (n + bit (leb frame_count e.sample_offset || ltb 2 e.quantization))
          (placeless e ∷ came)
          (take_event fl max_events t frame_count e q)
  unfolding take_event
  take_event-Keeps t e n came q s k =
      elim (Bool-cases (leb frame_count e.sample_offset || ltb 2 e.quantization)) [
        | inl x ↦ rw x (dropped-Keeps e n (n + 1) came q k (omega (arith, k.few)))
        | inr x ↦ elim (Bool-cases (e.quantization == 0)) [
          | inl z ↦ rw (x, z) (same (insert-Keeps e n came q s k))
          | inr z ↦ rw (x, z) (same (deferred-Keeps e t n came q s k))
        ]
      ]
    where
      same :
          {r : Quantizing F} → Keeps n (placeless e ∷ came) r → Keeps (n + 0) (placeless e ∷ came) r
      same {r} h =
          Keeps-perm n (n + 0) (placeless e ∷ came) (placeless e ∷ came) r
            (Perm.refl (placeless e ∷ came)) refl (omega arith) h

  take_events-Keeps :
      (t : Option (TransportBlock F)) (es : List (DeckControlEvent F)) (n m : ℕ)
      (came : List (DeckControlEvent F)) (q : Quantizing F)
      → Accounted fl max_events frame_count n q
      → Keeps m came q
      → Keeps
          (m + refused_count es)
          (map placeless es ++ came)
          (take_events fl max_events t frame_count es q)
  unfolding take_events refused_count
  take_events-Keeps t [] n m came q h k =
      Keeps-perm m (m + 0) came came q (Perm.refl came) refl (omega arith) k
  take_events-Keeps t (e ∷ es) n m came q h k =
      let b = bit (leb frame_count e.sample_offset || ltb 2 e.quantization) in
      Keeps-perm (m + b + refused_count es) (m + (b + refused_count es))
        (map placeless es ++ (placeless e ∷ came)) (placeless e ∷ (map placeless es ++ came)) _
        (perm_middle (map placeless es) came) (length-middle (map placeless es) came (placeless e))
        (omega arith)
        (take_events-Keeps t es (n + 1) (m + b) (placeless e ∷ came) _
          (take_event-Accounted fl max_events frame_count t e n q h)
          (take_event-Keeps t e m came q h.2 k))

  -- When at most `max_events` events wait, `process` puts out at most `max_events` events, in the
  -- order of their sample offsets and each below `frame_count`, and at most `max_events` wait
  -- afterwards. But for their sample offsets, the events that came in and those that waited are,
  -- in some order, the events put out, those that wait then, and others, whose number modulo 2^32
  -- is `dropped_count`; these are no more than the events of the input that lie behind the block
  -- or have an unknown quantization, and those by which all together exceed `max_events`.
  pub quantize_lem :
      (input : Option (Block (DeckControlEvent F))) (transport : Option (TransportBlock F))
      (pending : List (PendingEvent F))
      → length pending ≤ max_events
      → let q : Quantizing F = record {
        events = (quantize fl max_events input transport frame_count pending).0.1.events;
        dropped = (quantize fl max_events input transport frame_count pending).0.0.dropped_count;
        pending = (quantize fl max_events input transport frame_count pending).1;
      } in
        Accounted fl max_events frame_count
          (length pending + length (input_block fl max_events input).events)
          q
        × Keeps
            (refused_count (input_block fl max_events input).events)
            (map placeless (input_block fl max_events input).events ++ map waiting pending)
            q
  unfolding quantize
  quantize_lem input transport pending h =
      let t = usable_transport fl transport in
      let due = publish_due-Accounted fl max_events frame_count t pending h in
      (
        take_events-Accounted fl max_events frame_count t _ (length pending) _ due,
        Keeps-perm (0 + refused_count (input_block fl max_events input).events) _ _ _ _
            (Perm.refl
              (map placeless (input_block fl max_events input).events ++ map waiting pending))
            refl (omega arith)
            (take_events-Keeps t _ (length pending) 0 _ _ due (publish_due-Keeps t pending h)),
      )
