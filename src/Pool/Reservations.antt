-- ===== src/Pool/Reservations.antt =====
-- What each call does to the slots: who gets which slot, and what stays as it was.
use music_ra_t.Common.{
  ℕ, suc, ◌+◌, ◌^◌, ◌<◌, ◌≡◌, refl, ap, ◌∙◌, ◌≢◌, ◌⊎◌, inl, inr, List, [], ◌∷◌, Bool, true, false,
  ◌&&◌, ◌==◌, some, arith, length, get_elem?, set, get_elem?-set_self, get_elem?-set_ne,
  lt_of_get_elem?, if◌then◌else◌, add_u64, sub_u64, ltb, map, set-set, length-set,
}
use mathlib.Core.Path.{ap₂}
use music_ra_t.Common.Floats.{Floats}
use music_ra_t.Audio.Valid.{IsValidBlock, validate_audio_block_iff}
use music_ra_t.Pool.{
  Pool, Slot, free, writing, ready, reading, ReadReservation, no_write, no_read, read_view, is_free,
  is_ready, is_reading, is_old, empty_audio, put_state, contains, try_begin_write, try_acquire,
  try_acquire_ready, publish, release, discard_slots, discard_before_generation,
}
use music_ra_t.Pool.Scan.{Acquired, acquire_from-Acquired, begin_from-Begun, every_slot}

module _ {F : Type 0} where
  -- Only slot `i` differs.
  abbrev pub SameBut : ℕ → Pool F → Pool F → Type 0
  SameBut i p q = (j : ℕ) → i ≢ j → get_elem? q.slots j ≡ get_elem? p.slots j

module _ (fl : Floats) where
  open fl use {F}

  -- If `next_write_index` names a slot, `try_begin_write` fails only when no slot is free. Otherwise it takes a free slot: the slot is
  -- marked as being written and holds an empty block, and no other slot changes.
  pub try_begin_write_lem :
      (p : Pool F)
      → p.next_write_index < length p.slots
      → ((try_begin_write fl p ≡ (no_write, p))
          × ((j : ℕ) (s : Slot F) → get_elem? p.slots j ≡ some s → is_free s.state ≡ false))
        ⊎ ((i : ℕ) × (s : Slot F) × (get_elem? p.slots i ≡ some s)
            × (is_free s.state ≡ true)
            × ((try_begin_write fl p).0 ≡ record { index = i; audio = some i })
            × (get_elem? (try_begin_write fl p).1.slots i
                ≡ some (record s { state = writing; audio = empty_audio fl s.audio }))
            × SameBut i p (try_begin_write fl p).1)
  unfolding try_begin_write
  try_begin_write_lem p h =
      elim (begin_from-Begun fl p (length p.slots) 0 (omega (arith, h)) (omega arith)) [
        | inl (e, none_free) ↦ inl (e, every_slot p h none_free)
        | inr (i, s, g, f, e) ↦ inr (
          i,
          s,
          g,
          f,
          ap (λ o. o.0) e,
          rw e (get_elem?-set_self p.slots i _ (lt_of_get_elem? p.slots i g)),
          λ j ne. rw e (get_elem?-set_ne p.slots _ ne),
        )
      ]

  -- What a search for a ready slot that passes `test` may give.
  abbrev pub Takes : (Slot F → Bool) → Pool F → ReadReservation × Pool F → Type 0
  Takes test p out =
      ((out ≡ (no_read, p))
        × ((j : ℕ) (s : Slot F)
            → get_elem? p.slots j ≡ some s
            → is_ready s.state ≡ true
            → test s ≡ false))
      ⊎ ((i : ℕ) × (s : Slot F) × (get_elem? p.slots i ≡ some s)
          × (is_ready s.state ≡ true)
          × (test s ≡ true)
          × (out.0 ≡ read_view i s)
          × (get_elem? out.1.slots i ≡ some (record s { state = reading }))
          × SameBut i p out.1)

  Acquired-Takes :
      (test : Slot F → Bool) (p : Pool F) (out : ReadReservation × Pool F)
      → Acquired test p 0 out
      → Takes test p out
  Acquired-Takes test p out (inl (e, all)) = inl (e, λ j s g r. all j s (omega arith) g r)
  Acquired-Takes test p out (inr (i, s, _, g, r, t, e)) = inr (
    i,
    s,
    g,
    r,
    t,
    ap (λ o. o.0) e,
    rw e (get_elem?-set_self p.slots i _ (lt_of_get_elem? p.slots i g)),
    λ j ne. rw e (get_elem?-set_ne p.slots _ ne),
  )

  -- `try_acquire_ready` takes a ready slot of the wanted generation for reading and changes no other
  -- slot; it fails, and changes nothing, exactly when there is none.
  pub try_acquire_ready_lem :
      (p : Pool F) (generation : ℕ)
      → Takes (λ s. s.generation == generation) p (try_acquire_ready p generation)
  unfolding try_acquire_ready
  try_acquire_ready_lem p generation =
      Acquired-Takes _ p _ (acquire_from-Acquired _ p (length p.slots) 0 (omega arith))

  -- At a finite position that is not negative, `try_acquire` takes a ready slot of the wanted
  -- generation whose frames contain the position, or fails when there is none.
  pub try_acquire_lem :
      (p : Pool F) (x : F) (generation : ℕ)
      → fl.is_finite x ≡ true
      → fl.lt x (fl.of_ℕ 0) ≡ false
      → Takes (λ s. s.generation == generation && contains fl s x) p (try_acquire fl p x generation)
  unfolding try_acquire
  try_acquire_lem p x generation h n =
      rw (h, n) (Acquired-Takes _ p _ (acquire_from-Acquired _ p (length p.slots) 0 (omega arith)))

module _ (fl : Floats) (max_channels max_frames : ℕ) where
  open fl use {F}

  abbrev pub published : Slot F → ℕ → ℕ → Slot F
  published s start generation = record s {
    start_frame = start;
    generation = generation;
    frame_count = s.audio.frame_count;
    state = ready;
  }

  abbrev pub published_pool : Pool F → ℕ → Slot F → ℕ → ℕ → Pool F
  published_pool p i s start generation = record p {
    slots = set p.slots i (published s start generation);
    resident_frames = add_u64 p.resident_frames s.audio.frame_count;
  }

  publish_valid :
      (p : Pool F) (i start generation : ℕ) (s : Slot F)
      → get_elem? p.slots i ≡ some s
      → IsValidBlock fl max_channels max_frames s.audio
      → publish fl max_channels max_frames p (record { index = i; audio = some i }) start generation
        ≡ (true, published_pool p i s start generation)
  unfolding publish
  publish_valid p i start generation s g v = ground (
    arith,
    lt_of_get_elem? p.slots i g,
    (validate_audio_block_iff fl max_channels max_frames s.audio).1 v,
  )

  release_reading :
      (p : Pool F) (i : ℕ) (s t : Slot F)
      → get_elem? p.slots i ≡ some s
      → is_reading s.state ≡ true
      → release p (read_view i t) ≡ record p {
        slots = set p.slots i (record s { state = free });
        resident_frames = sub_u64 p.resident_frames s.audio.frame_count;
      }
  unfolding release read_view
  release_reading p i s t g r = ground (arith, lt_of_get_elem? p.slots i g)

  -- A valid block in a slot is published: the slot becomes ready under its start and generation,
  -- and its frames are counted. When a reader has then taken the slot and releases it, the slot is
  -- free, and the rest of the pool, the count included, is what it was before; the count is a word of
  -- 64 bits.
  pub release-publish :
      (p : Pool F) (i start generation : ℕ) (s : Slot F)
      → get_elem? p.slots i ≡ some s
      → IsValidBlock fl max_channels max_frames s.audio
      → p.resident_frames < 2 ^ 64
      → let t = published s start generation in
        let q = published_pool p i s start generation in
        (publish fl max_channels max_frames p
            (record { index = i; audio = some i })
            start
            generation
          ≡ (true, q))
        × (release (put_state q i t reading) (read_view i t)
            ≡ record p { slots = set p.slots i (record t { state = free }) })
  release-publish p i start generation s g v small = (
    publish_valid p i start generation s g v,
    release_reading (put_state q i t reading) i (record t { state = reading }) t held refl
        ∙ ap₂ (λ ss r. record p { slots = ss; resident_frames = r }) slots (omega arith),
  )
    where
      t : Slot F
      t = published s start generation

      q : Pool F
      q = published_pool p i s start generation

      held : get_elem? (put_state q i t reading).slots i ≡ some (record t { state = reading })
      held =
          get_elem?-set_self (set p.slots i t) i _
            (omega (arith, length-set p.slots i t, lt_of_get_elem? p.slots i g))

      slots :
          set (set (set p.slots i t) i (record t { state = reading })) i (record t { state = free })
          ≡ set p.slots i (record t { state = free })
      slots =
          set-set (set p.slots i t) i (record t { state = reading }) (record t { state = free })
          ∙ set-set p.slots i t (record t { state = free })

module _ {F : Type 0} where
  -- A slot after `discard_before_generation`: an old ready one is free, any other is as it was.
  abbrev pub discarded : ℕ → Slot F → Slot F
  discarded generation s =
      if is_ready s.state && ltb s.generation generation then record s { state = free } else s

  abbrev pub old_count : ℕ → List (Slot F) → ℕ
  old_count generation [] = 0
  old_count generation (s ∷ ss) =
      if is_ready s.state && ltb s.generation generation
      then suc (old_count generation ss)
      else old_count generation ss

  discard_slots_lem :
      (g : ℕ) (ss : List (Slot F)) (resident n : ℕ)
      → let (ss', r, n') = discard_slots g ss resident n in
        (ss' ≡ map (discarded g) ss) × (n' ≡ n + old_count g ss)
  unfolding discard_slots is_old
  discard_slots_lem g [] resident n = (refl, omega arith)
  discard_slots_lem g (s ∷ ss) resident n = ground (
    arith,
    discard_slots_lem g ss (sub_u64 resident s.audio.frame_count) (n + 1),
    discard_slots_lem g ss resident n,
  )

  -- `discard_before_generation` frees exactly the ready slots of an older generation, and returns
  -- their number.
  pub discard_before_generation_lem :
      (p : Pool F) (generation : ℕ)
      → let (n, q) = discard_before_generation p generation in
        (q.slots ≡ map (discarded generation) p.slots)
        × (n ≡ old_count generation p.slots)
        × (q.next_write_index ≡ p.next_write_index)
  unfolding discard_before_generation
  discard_before_generation_lem p generation =
      let d = discard_slots_lem generation p.slots p.resident_frames 0 in
      (d.0, omega (arith, d.1), refl)
