-- ===== src/Pool/Steps.antt =====
-- Histories of calls on one pool. The decoder writes through the pointer of a reservation while
-- its slot is being written, and only such a slot is published.
use music_ra_t.Common.{
  ℕ, zero, suc, ◌*◌, ◌^◌, ◌≤◌, ◌<◌, ◌≡◌, List, [], ◌∷◌, some, arith, length, get_elem?, All, total,
  not, ◌||◌, ◌&&◌, ◌==◌, Bool-cases, inl, inr, total-cons, total-nil, replicate, length-replicate,
}
use music_ra_t.Common.Floats.{Floats}
use music_ra_t.Audio.{AudioBlock}
use music_ra_t.Pool.{
  Pool, Slot, free, writing, WriteReservation, ReadReservation, put_slot, cancel, release, contains,
  try_acquire, try_acquire_ready, discard_before_generation, publish, try_begin_write,
}
use music_ra_t.Pool.Scan.{acquire_from-Acquired}
use music_ra_t.Pool.Valid.{
  IsValid, IsWriting, resident_weight, Counted, rewrite-IsValid, cancel-IsValid, release-IsValid,
  Acquired-IsValid, discard-IsValid, begin-IsValid, publish-IsValid,
}

module _ {F : Type 0} where
  -- A new pool: every slot is free, over the empty block `audio`.
  unfoldable pub init : AudioBlock F → ℕ → Pool F
  init audio n = record {
    slots =
        replicate n (record {
          audio = audio;
          start_frame = 0;
          generation = 0;
          frame_count = 0;
          state = free;
        });
    resident_frames = 0;
    next_write_index = 0;
  }

module _ (fl : Floats) (max_channels max_frames : ℕ) where
  open fl use {F}

  pub data Step (p : Pool F) : Pool F → Type 0 where
    begins : Step p (try_begin_write fl p).1
    decodes :
        (i : ℕ) (s : Slot F) (block : AudioBlock F)
        → get_elem? p.slots i ≡ some s
        → s.state ≡ writing
        → Step p (put_slot p i (record s { audio = block }))
    publishes :
        (r : WriteReservation) (start generation : ℕ)
        → IsWriting fl max_channels max_frames p r.index
        → Step p (publish fl max_channels max_frames p r start generation).1
    cancels : (r : WriteReservation) → Step p (cancel p r)
    acquires : (x : F) (generation : ℕ) → Step p (try_acquire fl p x generation).1
    acquires_ready : (generation : ℕ) → Step p (try_acquire_ready p generation).1
    releases : (r : ReadReservation) → Step p (release p r)
    discards : (generation : ℕ) → Step p (discard_before_generation p generation).1

  pub data Reach (p : Pool F) : Pool F → Type 0 where
    here : Reach p p
    next : {q r : Pool F} → Reach p q → Step q r → Reach p r

  try_acquire-IsValid :
      (p : Pool F) (x : F) (generation : ℕ)
      → IsValid max_frames p
      → IsValid max_frames (try_acquire fl p x generation).1
  unfolding try_acquire
  try_acquire-IsValid p x generation v =
      elim (Bool-cases (not (fl.is_finite x) || fl.lt x (fl.of_ℕ 0))) [
        | inl e ↦ rw e v
        | inr e ↦ rw e (
            Acquired-IsValid max_frames _ p _ v (
              acquire_from-Acquired (λ s. s.generation == generation && contains fl s x) p
                (length p.slots) 0 (omega arith)))
      ]

  try_acquire_ready-IsValid :
      (p : Pool F) (generation : ℕ)
      → IsValid max_frames p
      → IsValid max_frames (try_acquire_ready p generation).1
  unfolding try_acquire_ready
  try_acquire_ready-IsValid p generation v =
      Acquired-IsValid max_frames _ p _ v
        (acquire_from-Acquired _ p (length p.slots) 0 (omega arith))

  -- Each call keeps the accounting of the pool.
  pub Step-IsValid : {p q : Pool F} → Step p q → IsValid max_frames p → IsValid max_frames q
  Step-IsValid {p} begins v = begin-IsValid fl max_channels max_frames p v
  Step-IsValid {p} (decodes i s block e w) v =
      rewrite-IsValid max_frames p i p.next_write_index s (record s { audio = block }) v e
        (λ q. ground arith) (ground arith) v.next_in
  Step-IsValid {p} (publishes r start generation w) v =
      publish-IsValid fl max_channels max_frames p r start generation w v
  Step-IsValid {p} (cancels r) v = cancel-IsValid max_frames p r v
  Step-IsValid {p} (acquires x generation) v = try_acquire-IsValid p x generation v
  Step-IsValid {p} (acquires_ready generation) v = try_acquire_ready-IsValid p generation v
  Step-IsValid {p} (releases r) v = release-IsValid max_frames p r v
  Step-IsValid {p} (discards generation) v = discard-IsValid max_frames p generation v

  Reach-IsValid : {p q : Pool F} → Reach p q → IsValid max_frames p → IsValid max_frames q
  Reach-IsValid here v = v
  Reach-IsValid (next r s) v = Step-IsValid s (Reach-IsValid r v)

  init-Counted : (audio : AudioBlock F) (n : ℕ) → All (Counted max_frames) (init audio n).slots
  unfolding init
  init-Counted audio zero = tt
  init-Counted audio (suc n) = (λ q. cc, init-Counted audio n)

  total-init : (audio : AudioBlock F) (n : ℕ) → total resident_weight (init audio n).slots ≡ 0
  unfolding init
  total-init audio zero = total-nil resident_weight
  total-init audio (suc n) =
      omega (arith, total-cons resident_weight _ (init audio n).slots, total-init audio n)

  pub init-IsValid : (audio : AudioBlock F) (n : ℕ) → 0 < n → IsValid max_frames (init audio n)
  unfolding init
  init-IsValid audio n h = record {
    accounted = rw (total-init audio n);
    counted = init-Counted audio n;
    next_in = rw (length-replicate n) h;
  }

  resident_weight-le : (s : Slot F) → Counted max_frames s → resident_weight s ≤ max_frames
  resident_weight-le s h = ground (arith, h)

  total-le_max :
      (ss : List (Slot F))
      → All (Counted max_frames) ss
      → total resident_weight ss ≤ length ss * max_frames
  total-le_max [] h = omega (arith, total-nil (resident_weight {F = F}))
  total-le_max (s ∷ ss) h =
      omega (arith, total-cons resident_weight s ss, resident_weight-le s h.0, total-le_max ss h.1)

  -- From a new pool with a slot, after any sequence of calls in which a slot is published only while
  -- it is being written, and decoded into only then, `resident_frames` is the number of decoded
  -- frames in the slots that are ready or being read, exactly, if all slots together cannot hold
  -- 2^64 frames.
  pub resident_frames-eq-total :
      (audio : AudioBlock F) (n : ℕ) {p : Pool F}
      → 0 < n
      → length p.slots * max_frames < 2 ^ 64
      → Reach (init audio n) p
      → p.resident_frames ≡ total resident_weight p.slots
  resident_frames-eq-total audio n {p} pos small r =
      omega (arith, v.accounted, total-le_max p.slots v.counted)
    where
      v : IsValid max_frames p
      v = Reach-IsValid r (init-IsValid audio n pos)
