-- ===== src/Pool/Slots.antt =====
-- The slots after each call of the decoding thread, as one write to the list.
use music_ra_t.Common.{
  ℕ, zero, suc, ◌+◌, ◌<◌, ◌≡◌, refl, ap, ◌⊎◌, inl, inr, List, [], ◌∷◌, true, false, some, map, All,
  arith, length, get_elem?, set, lt_of_get_elem?, if◌then◌else◌,
}
use music_ra_t.Common.Floats.{Floats}
use music_ra_t.Pool.{
  Pool, Slot, free, writing, WriteReservation, no_write, is_free, is_ready, empty_audio,
  try_begin_write, cancel, publish, ready_count,
}
use music_ra_t.Pool.Scan.{begin_from-Begun, every_slot}
use music_ra_t.Pool.Reservations.{published, discarded}

-- The reservation that `try_begin_write` gives for slot `i`.
abbrev pub held_by : ℕ → WriteReservation
held_by i = record { index = i; audio = some i }

module _ {F : Type 0} where
  -- Giving up a slot that is being written frees it.
  pub cancel_slots :
      (p : Pool F) (i : ℕ) (s : Slot F)
      → get_elem? p.slots i ≡ some s
      → s.state ≡ writing
      → (cancel p (held_by i)).slots ≡ set p.slots i (record s { state = free })
  unfolding cancel
  cancel_slots p i s g w = ground (arith, lt_of_get_elem? p.slots i g)

  abbrev pub ready_weight : Slot F → ℕ
  ready_weight s = if is_ready s.state then 1 else 0

  pub ready_count-set :
      (ss : List (Slot F)) (i : ℕ) (t : Slot F) {s : Slot F}
      → get_elem? ss i ≡ some s
      → ready_count (set ss i t) + ready_weight s ≡ ready_count ss + ready_weight t
  unfolding ready_count
  ready_count-set [] i t e = cc
  ready_count-set (x ∷ ss) zero t e = ground arith
  ready_count-set (x ∷ ss) (suc i) t {s} e = ground (arith, ready_count-set ss i t {s = s} e)

module _ (fl : Floats) where
  open fl use {F}

  abbrev pub claimed : Slot F → Slot F
  claimed s = record s { state = writing; audio = empty_audio fl s.audio }

  pub try_begin_write_slots :
      (p : Pool F)
      → p.next_write_index < length p.slots
      → ((try_begin_write fl p ≡ (no_write, p))
          × ((j : ℕ) (s : Slot F) → get_elem? p.slots j ≡ some s → is_free s.state ≡ false))
        ⊎ ((i : ℕ) × (s : Slot F) × (get_elem? p.slots i ≡ some s)
            × (is_free s.state ≡ true)
            × ((try_begin_write fl p).0 ≡ held_by i)
            × ((try_begin_write fl p).1.slots ≡ set p.slots i (claimed s)))
  unfolding try_begin_write
  try_begin_write_slots p h =
      elim (begin_from-Begun fl p (length p.slots) 0 (omega (arith, h)) (omega arith)) [
        | inl (e, all) ↦ inl (e, every_slot p h all)
        | inr (i, s, g, f, e) ↦ inr (i, s, g, f, ap (λ o. o.0) e, ap (λ o. o.1.slots) e)
      ]

  -- What `publish` makes of a slot that is being written: ready under the start and generation, or
  -- free again when the block is not valid.
  pub publish_slots :
      (max_channels max_frames : ℕ) (p : Pool F) (i start generation : ℕ) (s : Slot F)
      → get_elem? p.slots i ≡ some s
      → s.state ≡ writing
      → (((publish fl max_channels max_frames p (held_by i) start generation).0 ≡ true)
          × ((publish fl max_channels max_frames p (held_by i) start generation).1.slots
              ≡ set p.slots i (published fl max_channels max_frames s start generation)))
        ⊎ (((publish fl max_channels max_frames p (held_by i) start generation).0 ≡ false)
            × ((publish fl max_channels max_frames p (held_by i) start generation).1.slots
                ≡ set p.slots i (record s { state = free })))
  unfolding publish
  publish_slots max_channels max_frames p i start generation s g w =
      ground (arith, lt_of_get_elem? p.slots i g, cancel_slots p i s g w)

-- What `discard_before_generation` leaves when all chunks were of an older generation.
module _ {F : Type 0} where
  abbrev pub NoneReady : List (Slot F) → Type 0
  NoneReady = All (λ s. is_ready s.state ≡ false)

  pub discarded-NoneReady :
      (g g' : ℕ) (ss : List (Slot F))
      → g < g'
      → All (λ s. is_ready s.state ≡ true → s.generation ≡ g) ss
      → NoneReady (map (discarded g') ss)
  discarded-NoneReady g g' [] h c = tt
  discarded-NoneReady g g' (s ∷ ss) h c = (ground (arith, c.0), discarded-NoneReady g g' ss h c.1)

  pub NoneReady-ready_count : (ss : List (Slot F)) → NoneReady ss → ready_count ss ≡ 0
  unfolding ready_count
  NoneReady-ready_count [] h = refl
  NoneReady-ready_count (s ∷ ss) h = ground (arith, NoneReady-ready_count ss h.1)
