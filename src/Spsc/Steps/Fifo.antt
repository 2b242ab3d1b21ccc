-- ===== src/Spsc/Steps/Fifo.antt =====
-- What arrives is what was sent, in order, in every interleaving of the two threads.
use mathlib.Core.Path.{subst}
use native.Mathlib.Nat.{mod-add-mod}
use music_ra_t.Common.{
  ℕ, zero, suc, ◌+◌, ◌%◌, ◌<◌, ◌≡◌, refl, sym, ap, ◌∙◌, ◌≢◌, ◌⊎◌, inl, inr, List, [], ◌∷◌, ◌++◌,
  true, false, none, some, arith, length, get_elem?, length-set, length-append, append_assoc,
  get_elem?-set_self, get_elem?-set_ne, ◌==◌, ltb, Bool-cases,
}
use music_ra_t.Spsc.{next_index, push, pop}
use music_ra_t.Spsc.Steps.{
  Producer, Consumer, written, taken, System, Action, offer, produce, poll, consume, step, run,
  start, offered, produced, polled, consumed, read_cell,
}

mod-ne : (t i k c : ℕ) → t < c → i < k → k < c → (t + k) % c ≢ (t + i) % c
mod-ne t i k c ht hi hk = grind arith

mod-suc : (t k c : ℕ) → ((t + 1) % c + k) % c ≡ (t + suc k) % c
mod-suc t k c = mod-add-mod (t + 1) c k ∙ ap (λ n. n % c) (omega arith)

mod-room : (t k c : ℕ) → t < c → k < c → ((t + k) % c + 1) % c ≢ t → k + 1 < c
mod-room t k c ht hk h = grind arith

mod-full : (t k c : ℕ) → t < c → k < c → ((t + k) % c + 1) % c ≡ t → k + 1 ≡ c
mod-full t k c ht hk h = grind arith

mod-empty : (t c : ℕ) → t < c → (t + 0) % c ≡ t
mod-empty t c h = grind arith

module _ {A : Type 0} where
  get_elem?-append_front :
      (xs ys : List A) (i : ℕ) (x : A) → get_elem? xs i ≡ some x → get_elem? (xs ++ ys) i ≡ some x
  get_elem?-append_front [] ys i x h = cc
  get_elem?-append_front (z ∷ xs) ys zero x h = h
  get_elem?-append_front (z ∷ xs) ys (suc i) x h = get_elem?-append_front xs ys i x h

  get_elem?-append_last :
      (xs : List A) (v : A) (i : ℕ) (x : A)
      → get_elem? (xs ++ v ∷ []) i ≡ some x
      → (get_elem? xs i ≡ some x) ⊎ ((i ≡ length xs) × (v ≡ x))
  get_elem?-append_last [] v zero x h = inr (refl, cc)
  get_elem?-append_last [] v (suc i) x h = cc
  get_elem?-append_last (z ∷ xs) v zero x h = inl h
  get_elem?-append_last (z ∷ xs) v (suc i) x h = elim (get_elem?-append_last xs v i x h) [
    | inl e ↦ inl e
    | inr (e, q) ↦ inr (ap suc e, q)
  ]

  get_elem?-lt : (xs : List A) (i : ℕ) (x : A) → get_elem? xs i ≡ some x → i < length xs
  get_elem?-lt [] i x h = cc
  get_elem?-lt (z ∷ xs) zero x h = omega arith
  get_elem?-lt (z ∷ xs) (suc i) x h = omega (arith, get_elem?-lt xs i x h)

  -- The cells from `tail` on hold `xs`.
  abbrev Holds : List A → ℕ → List A → Type 0
  Holds values tail xs =
      (i : ℕ) (x : A)
      → get_elem? xs i ≡ some x
      → get_elem? values ((tail + i) % length values) ≡ some x

  -- What a thread in the middle of its call knows; `n` values are in the queue.
  abbrev ProducerKnows : List A → ℕ → ℕ → Producer A → Type 0
  ProducerKnows values head n Producer.resting = Unit {0}
  ProducerKnows values head n (Producer.checked v at next) =
      (at ≡ head) × (next ≡ (head + 1) % length values) × (n + 1 < length values)
  ProducerKnows values head n (written v next) =
      (get_elem? values head ≡ some v)
      × (next ≡ (head + 1) % length values)
      × (n + 1 < length values)

  abbrev ConsumerKnows : ℕ → List A → Consumer A → Type 0
  ConsumerKnows tail xs Consumer.resting = Unit {0}
  ConsumerKnows tail xs (Consumer.checked at) = (at ≡ tail) × (0 < length xs)
  ConsumerKnows tail xs (taken at v) = (at ≡ tail) × (get_elem? xs 0 ≡ some v)

  -- `xs` are the values in the queue.
  pub record Inv (s : System A) (xs : List A) : Type 0 where
    pub room : length xs < length s.queue.values
    pub tail_in : s.queue.tail < length s.queue.values
    pub head_at : s.queue.head ≡ (s.queue.tail + length xs) % length s.queue.values
    pub holds : Holds s.queue.values s.queue.tail xs
    pub flow : s.sent ≡ s.got ++ xs
    pub producer_knows : ProducerKnows s.queue.values s.queue.head (length xs) s.producer
    pub consumer_knows : ConsumerKnows s.queue.tail xs s.consumer

  offered-Inv :
      (v : A) (s : System A) (xs : List A) (p : Producer A)
      → s.producer ≡ p
      → Inv s xs
      → Inv (offered s v p) xs
  unfolding offered
  offered-Inv v s xs Producer.resting e h =
      elim (Bool-cases (next_index s.queue s.queue.head == s.queue.tail)) [
        | inl t ↦ rw t h
        | inr t ↦ rw t (record {
          room = h.room;
          tail_in = h.tail_in;
          head_at = h.head_at;
          holds = h.holds;
          flow = h.flow;
          producer_knows = (refl, refl, left t);
          consumer_knows = h.consumer_knows;
        })
      ]
    where
      left :
          (next_index s.queue s.queue.head == s.queue.tail) ≡ false
          → length xs + 1 < length s.queue.values
      left t =
          mod-room s.queue.tail (length xs) (length s.queue.values) h.tail_in h.room
            (λ q. ground (arith, q, h.head_at))
  offered-Inv v s xs (Producer.checked w at next) e h = h
  offered-Inv v s xs (written w next) e h = h

  produced_checked-Inv :
      (s : System A) (xs : List A) (v : A) (at next : ℕ)
      → ProducerKnows s.queue.values s.queue.head (length xs) (Producer.checked v at next)
      → Inv s xs
      → Inv (produced s (Producer.checked v at next)) xs
  unfolding produced
  produced_checked-Inv s xs v at next (k, n, r) h = record {
    room = rw (length-set s.queue.values at v) h.room;
    tail_in = rw (length-set s.queue.values at v) h.tail_in;
    head_at = rw (length-set s.queue.values at v) h.head_at;
    holds = λ i x g.
        rw (length-set s.queue.values at v)
          (get_elem?-set_ne s.queue.values v (apart i x g) ∙ h.holds i x g);
    flow = h.flow;
    producer_knows =
        rw (length-set s.queue.values at v)
          (rw k (get_elem?-set_self s.queue.values s.queue.head v in_range), n, r);
    consumer_knows = h.consumer_knows;
  }
    where
      in_range : s.queue.head < length s.queue.values
      in_range = ground (arith, h.head_at, h.tail_in)

      apart :
          (i : ℕ) (x : A)
          → get_elem? xs i ≡ some x
          → at ≢ (s.queue.tail + i) % length s.queue.values
      apart i x g q =
          mod-ne s.queue.tail i (length xs) (length s.queue.values) h.tail_in
            (get_elem?-lt xs i x g) h.room (sym h.head_at ∙ sym k ∙ q)

  ConsumerKnows-append :
      (tail : ℕ) (xs : List A) (v : A) (c : Consumer A)
      → ConsumerKnows tail xs c
      → ConsumerKnows tail (xs ++ v ∷ []) c
  ConsumerKnows-append tail xs v Consumer.resting k = tt
  ConsumerKnows-append tail xs v (Consumer.checked at) (e, k) =
      (e, omega (arith, k, length-append xs (v ∷ [])))
  ConsumerKnows-append tail xs v (taken at w) (e, k) = (e, get_elem?-append_front xs (v ∷ []) 0 w k)

  produced-written-Inv :
      (s : System A) (xs : List A) (v : A) (next : ℕ)
      → ProducerKnows s.queue.values s.queue.head (length xs) (written v next)
      → Inv s xs
      → Inv (produced s (written v next)) (xs ++ v ∷ [])
  unfolding produced
  produced-written-Inv s xs v next (k, n, r) h = record {
    room = omega (arith, r, length-append xs (v ∷ []));
    tail_in = h.tail_in;
    head_at =
        n
        ∙ ap (λ m. (m + 1) % length s.queue.values) h.head_at
        ∙ mod-add-mod (s.queue.tail + length xs) (length s.queue.values) 1
        ∙ ap (λ m. m % length s.queue.values) (omega (arith, length-append xs (v ∷ [])));
    holds = λ i x g. elim (get_elem?-append_last xs v i x g) [
      | inl e ↦ h.holds i x e
      | inr (e, q) ↦
          ap (λ m. get_elem? s.queue.values ((s.queue.tail + m) % length s.queue.values)) e
          ∙ ap (get_elem? s.queue.values) (sym h.head_at)
          ∙ k
          ∙ ap some q
    ];
    flow = ap (λ l. l ++ v ∷ []) h.flow ∙ append_assoc s.got xs (v ∷ []);
    producer_knows = tt;
    consumer_knows = ConsumerKnows-append s.queue.tail xs v s.consumer h.consumer_knows;
  }

  produced-Inv :
      (s : System A) (xs : List A) (p : Producer A)
      → s.producer ≡ p
      → Inv s xs
      → (ys : List A) × Inv (produced s p) ys
  unfolding produced
  produced-Inv s xs Producer.resting e h = (xs, h)
  produced-Inv s xs (Producer.checked v at next) e h = (
    xs,
    produced_checked-Inv s xs v at next
        (subst (ProducerKnows s.queue.values s.queue.head (length xs)) e h.producer_knows) h,
  )
  produced-Inv s xs (written v next) e h = (
    xs ++ v ∷ [],
    produced-written-Inv s xs v next
        (subst (ProducerKnows s.queue.values s.queue.head (length xs)) e h.producer_knows) h,
  )

  polled-Inv :
      (s : System A) (xs : List A) (c : Consumer A)
      → s.consumer ≡ c
      → Inv s xs
      → Inv (polled s c) xs
  unfolding polled
  polled-Inv s xs Consumer.resting e h = elim (Bool-cases (s.queue.tail == s.queue.head)) [
    | inl t ↦ rw t h
    | inr t ↦ rw t (record {
      room = h.room;
      tail_in = h.tail_in;
      head_at = h.head_at;
      holds = h.holds;
      flow = h.flow;
      producer_knows = h.producer_knows;
      consumer_knows = (refl, some_value xs h.head_at t);
    })
  ]
    where
      some_value :
          (ys : List A)
          → s.queue.head ≡ (s.queue.tail + length ys) % length s.queue.values
          → (s.queue.tail == s.queue.head) ≡ false
          → 0 < length ys
      some_value [] q t =
          absurd (ground (arith, q, mod-empty s.queue.tail (length s.queue.values) h.tail_in))
      some_value (y ∷ ys) q t = omega arith
  polled-Inv s xs (Consumer.checked at) e h = h
  polled-Inv s xs (taken at v) e h = h

  consumed_checked-Inv :
      (s : System A) (xs : List A) (at : ℕ)
      → ConsumerKnows s.queue.tail xs (Consumer.checked at)
      → Inv s xs
      → Inv (consumed s (Consumer.checked at)) xs
  unfolding consumed read_cell
  consumed_checked-Inv s [] at (k, l) h = absurd (omega arith)
  consumed_checked-Inv s (x ∷ xs) at (k, l) h = rw found (record {
    room = h.room;
    tail_in = h.tail_in;
    head_at = h.head_at;
    holds = h.holds;
    flow = h.flow;
    producer_knows = h.producer_knows;
    consumer_knows = (k, refl);
  })
    where
      found : get_elem? s.queue.values at ≡ some x
      found =
          ap (get_elem? s.queue.values)
            (k ∙ sym (mod-empty s.queue.tail (length s.queue.values) h.tail_in))
          ∙ h.holds 0 x refl

  ProducerKnows-fewer :
      (values : List A) (head n : ℕ) (p : Producer A)
      → ProducerKnows values head (suc n) p
      → ProducerKnows values head n p
  ProducerKnows-fewer values head n Producer.resting k = tt
  ProducerKnows-fewer values head n (Producer.checked v at next) (a, b, r) = (a, b, omega arith)
  ProducerKnows-fewer values head n (written v next) (a, b, r) = (a, b, omega arith)

  consumed_taken-Inv :
      (s : System A) (x : A) (xs : List A) (at : ℕ) (v : A)
      → ConsumerKnows s.queue.tail (x ∷ xs) (taken at v)
      → Inv s (x ∷ xs)
      → Inv (consumed s (taken at v)) xs
  unfolding consumed
  consumed_taken-Inv s x xs at v (k, g) h = record {
    room = omega (arith, h.room);
    tail_in = ground (arith, h.tail_in);
    head_at = h.head_at ∙ sym (moved (length xs));
    holds = λ i y q. ap (get_elem? s.queue.values) (moved i) ∙ h.holds (suc i) y q;
    flow = h.flow ∙ ap (λ w. s.got ++ w ∷ xs) (the_value g) ∙ sym (append_assoc s.got (v ∷ []) xs);
    producer_knows =
        ProducerKnows-fewer s.queue.values s.queue.head (length xs) s.producer h.producer_knows;
    consumer_knows = tt;
  }
    where
      moved :
          (i : ℕ)
          → ((at + 1) % length s.queue.values + i) % length s.queue.values
            ≡ (s.queue.tail + suc i) % length s.queue.values
      moved i =
          ap (λ t. ((t + 1) % length s.queue.values + i) % length s.queue.values) k
          ∙ mod-suc s.queue.tail i (length s.queue.values)

      the_value : some x ≡ some v → x ≡ v
      the_value q = cc

  consumed-Inv :
      (s : System A) (xs : List A) (c : Consumer A)
      → s.consumer ≡ c
      → Inv s xs
      → (ys : List A) × Inv (consumed s c) ys
  unfolding consumed
  consumed-Inv s xs Consumer.resting e h = (xs, h)
  consumed-Inv s xs (Consumer.checked at) e h = (
    xs,
    consumed_checked-Inv s xs at (subst (ConsumerKnows s.queue.tail xs) e h.consumer_knows) h,
  )
  consumed-Inv s [] (taken at v) e h =
      absurd (impossible (subst (ConsumerKnows s.queue.tail []) e h.consumer_knows).1)
    where
      impossible : none ≡ some v → ⊥
      impossible q = cc
  consumed-Inv s (x ∷ xs) (taken at v) e h = (
    xs,
    consumed_taken-Inv s x xs at v (subst (ConsumerKnows s.queue.tail (x ∷ xs)) e h.consumer_knows)
        h,
  )

  step-Inv :
      (s : System A) (xs : List A) (a : Action A) → Inv s xs → (ys : List A) × Inv (step s a) ys
  unfolding step
  step-Inv s xs (offer v) h = (xs, offered-Inv v s xs s.producer refl h)
  step-Inv s xs produce h = produced-Inv s xs s.producer refl h
  step-Inv s xs poll h = (xs, polled-Inv s xs s.consumer refl h)
  step-Inv s xs consume h = consumed-Inv s xs s.consumer refl h

  run-Inv :
      (s : System A) (xs : List A) (as_ : List (Action A))
      → Inv s xs
      → (ys : List A) × Inv (run s as_) ys
  unfolding run
  run-Inv s xs [] h = (xs, h)
  run-Inv s xs (a ∷ as_) h = let (ys, k) = step-Inv s xs a h in run-Inv (step s a) ys as_ k

  start-Inv : (values : List A) → 0 < length values → Inv (start values) []
  unfolding start
  start-Inv values h = record {
    room = h;
    tail_in = h;
    head_at = sym (mod-empty 0 (length values) h);
    holds = λ i x q. cc;
    flow = refl;
    producer_knows = tt;
    consumer_knows = tt;
  }

  length-step :
      (s : System A) (a : Action A) → length (step s a).queue.values ≡ length s.queue.values
  unfolding step offered produced polled consumed read_cell
  length-step s (offer v) = ground arith
  length-step s produce = length-produced s.producer
    where
      length-produced :
          (p : Producer A) → length (produced s p).queue.values ≡ length s.queue.values
      length-produced Producer.resting = refl
      length-produced (Producer.checked v at next) = length-set s.queue.values at v
      length-produced (written v next) = refl
  length-step s poll = ground arith
  length-step s consume = ground arith

  length-run :
      (s : System A) (as_ : List (Action A))
      → length (run s as_).queue.values ≡ length s.queue.values
  unfolding run
  length-run s [] = refl
  length-run s (a ∷ as_) = length-run (step s a) as_ ∙ length-step s a

  push-room :
      (s : System A) (xs : List A) (v : A)
      → Inv s xs
      → (push s.queue v).0 ≡ ltb (length xs + 1) (length s.queue.values)
  unfolding push
  push-room s xs v h = elim (Bool-cases (next_index s.queue s.queue.head == s.queue.tail)) [
    | inl t ↦ rw t (no_room t)
    | inr t ↦ rw t (has_room t)
  ]
    where
      has_room :
          (next_index s.queue s.queue.head == s.queue.tail) ≡ false
          → true ≡ ltb (length xs + 1) (length s.queue.values)
      has_room t = ground (
        arith,
        mod-room s.queue.tail (length xs) (length s.queue.values) h.tail_in h.room
            (λ q. ground (arith, q, h.head_at)),
      )

      no_room :
          (next_index s.queue s.queue.head == s.queue.tail) ≡ true
          → false ≡ ltb (length xs + 1) (length s.queue.values)
      no_room t = ground (
        arith,
        mod-full s.queue.tail (length xs) (length s.queue.values) h.tail_in h.room
            (ground (arith, h.head_at)),
      )

  pop-first : (s : System A) (xs : List A) → Inv s xs → (pop s.queue).0 ≡ get_elem? xs 0
  unfolding pop
  pop-first s [] h = ground (arith, empty)
    where
      empty : s.queue.head ≡ s.queue.tail
      empty = h.head_at ∙ mod-empty s.queue.tail (length s.queue.values) h.tail_in
  pop-first s (x ∷ xs) h = elim (Bool-cases (s.queue.tail == s.queue.head)) [
    | inl t ↦ absurd (
        mod-ne s.queue.tail 0 (length (x ∷ xs)) (length s.queue.values) h.tail_in (omega arith)
          h.room
          (sym h.head_at ∙ same t ∙ sym (mod-empty s.queue.tail (length s.queue.values) h.tail_in)))
    | inr t ↦ rw t found
  ]
    where
      same : (s.queue.tail == s.queue.head) ≡ true → s.queue.head ≡ s.queue.tail
      same t = ground arith

      found : get_elem? s.queue.values s.queue.tail ≡ some x
      found =
          ap (get_elem? s.queue.values)
            (sym (mod-empty s.queue.tail (length s.queue.values) h.tail_in))
          ∙ h.holds 0 x refl

  -- From an empty queue with a cell, after any interleaving of the steps of `push` and `pop`, there
  -- are values `xs`, fewer than cells, such that the values sent are those received and then `xs`,
  -- in this order; a `push` there has room exactly if `xs` and one more are fewer than the cells,
  -- and a `pop` gives the first of `xs`, if there is one.
  pub run-IsFifo :
      (values : List A) (as_ : List (Action A)) (v : A)
      → 0 < length values
      → let s = run (start values) as_ in
        (xs : List A) × (s.sent ≡ s.got ++ xs)
        × (length xs < length values)
        × ((push s.queue v).0 ≡ ltb (length xs + 1) (length values))
        × ((pop s.queue).0 ≡ get_elem? xs 0)
  unfolding start
  run-IsFifo values as_ v h =
      let (xs, k) = run-Inv (start values) [] as_ (start-Inv values h) in
      let cells = length-run (start values) as_ in
      (
        xs,
        k.flow,
        omega (arith, k.room, cells),
        push-room (run (start values) as_) xs v k ∙ ap (ltb (length xs + 1)) cells,
        pop-first (run (start values) as_) xs k,
      )
