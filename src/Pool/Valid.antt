-- ===== src/Pool/Valid.antt =====
-- The pool's accounting: `resident_frames` counts the frames of the slots that are ready or being
-- read, and no more than the validated length of each.
use music_ra_t.Common.{
  ℕ, suc, ◌+◌, ◌%◌, ◌^◌, ◌≤◌, ◌<◌, ◌≡◌, refl, ap, inl, inr, List, [], ◌∷◌, Bool, true, some, arith,
  length, get_elem?, set, All, length-set, All-set, All-get_elem?, total, total-set, total-cons,
  Bool-cases, Option-cases, if◌then◌else◌, add_u64, sub_u64,
}
use music_ra_t.Common.Floats.{Floats}
use music_ra_t.Audio.Valid.{validate_audio_block_iff}
use music_ra_t.Pool.{
  Pool, Slot, free, writing, ready, reading, WriteReservation, ReadReservation, is_writing,
  is_reading, is_resident, cancel, release, discard_before_generation, discard_slots, is_old,
  publish, try_begin_write,
}
use music_ra_t.Pool.Scan.{Acquired, begin_from-Begun}

-- The frames that a slot adds to `resident_frames`.
abbrev pub resident_weight : {F : Type 0} → Slot F → ℕ
resident_weight s = if is_resident s.state then s.audio.frame_count else 0

module _ {F : Type 0} (max_frames : ℕ) where
  -- A resident slot repeats the length of its block, which is within the limit of the build.
  abbrev pub Counted : Slot F → Type 0
  Counted s =
      is_resident s.state ≡ true
      → (s.frame_count ≡ s.audio.frame_count) × (s.audio.frame_count ≤ max_frames)

  pub record IsValid (p : Pool F) : Type 0 where
    pub accounted : p.resident_frames ≡ total resident_weight p.slots % 2 ^ 64
    pub counted : All Counted p.slots
    pub next_in : p.next_write_index < length p.slots

  -- One slot and the counter change together.
  pub replace-IsValid :
      (p : Pool F) (i r n : ℕ) (s t : Slot F)
      → IsValid p
      → get_elem? p.slots i ≡ some s
      → Counted t
      → (r + resident_weight s) % 2 ^ 64 ≡ (p.resident_frames + resident_weight t) % 2 ^ 64
      → r < 2 ^ 64
      → n < length p.slots
      → IsValid (record p { slots = set p.slots i t; resident_frames = r; next_write_index = n })
  replace-IsValid p i r n s t v e c q small nx = record {
    accounted = omega (arith, total-set resident_weight p.slots i t e, v.accounted);
    counted = All-set Counted p.slots i t v.counted c;
    next_in = omega (arith, length-set p.slots i t);
  }

  pub small_resident : (p : Pool F) → IsValid p → p.resident_frames < 2 ^ 64
  small_resident p v = omega (arith, v.accounted)

  -- A slot changes its state and what else does not count.
  pub rewrite-IsValid :
      (p : Pool F) (i n : ℕ) (s t : Slot F)
      → IsValid p
      → get_elem? p.slots i ≡ some s
      → Counted t
      → resident_weight t ≡ resident_weight s
      → n < length p.slots
      → IsValid (record p { slots = set p.slots i t; next_write_index = n })
  rewrite-IsValid p i n s t v e c w nx =
      replace-IsValid p i p.resident_frames n s t v e c (rw w) (small_resident p v) nx

  pub cancel-IsValid : (p : Pool F) (r : WriteReservation) → IsValid p → IsValid (cancel p r)
  unfolding cancel
  cancel-IsValid p r v = elim (Option-cases (get_elem? p.slots r.index)) [
    | inl e ↦ ground arith
    | inr (s, e) ↦ elim (Bool-cases (is_writing s.state)) [
      | inl w ↦ ground (
        arith,
        rewrite-IsValid p r.index p.next_write_index s (record s { state = free }) v e (λ q. cc)
            (ground arith) v.next_in,
      )
      | inr w ↦ ground arith
    ]
  ]

  pub release-IsValid : (p : Pool F) (r : ReadReservation) → IsValid p → IsValid (release p r)
  unfolding release
  release-IsValid p r v = elim (Option-cases (get_elem? p.slots r.index)) [
    | inl e ↦ ground arith
    | inr (s, e) ↦ elim (Bool-cases (is_reading s.state)) [
      | inl w ↦ ground (
        arith,
        replace-IsValid p r.index (sub_u64 p.resident_frames s.audio.frame_count) p.next_write_index
            s (record s { state = free }) v e (λ q. cc) (ground arith) (omega arith) v.next_in,
      )
      | inr w ↦ ground arith
    ]
  ]

  pub Acquired-IsValid :
      (test : Slot F → Bool) (p : Pool F) (out : ReadReservation × Pool F)
      → IsValid p
      → Acquired test p 0 out
      → IsValid out.1
  Acquired-IsValid test p out v (inl (e, _)) = rw e v
  Acquired-IsValid test p out v (inr (j, s, _, g, r, _, e)) = rw e (
      rewrite-IsValid p j p.next_write_index s (record s { state = reading }) v g
        (λ q. All-get_elem? Counted p.slots j s v.counted g (ground arith)) (ground arith)
        v.next_in)

  -- What the loop of `discard_before_generation` keeps.
  abbrev Discarded : List (Slot F) → ℕ → List (Slot F) × ℕ × ℕ → Type 0
  Discarded ss resident (ss', r, n) =
      (length ss' ≡ length ss)
      × All Counted ss'
      × (r < 2 ^ 64)
      × ((r + total resident_weight ss) % 2 ^ 64 ≡ (resident + total resident_weight ss') % 2 ^ 64)

  discard_slots-Discarded :
      (g : ℕ) (ss : List (Slot F)) (resident n : ℕ)
      → resident < 2 ^ 64
      → All Counted ss
      → Discarded ss resident (discard_slots g ss resident n)
  unfolding discard_slots
  discard_slots-Discarded g [] resident n h c = (refl, tt, h, refl)
  discard_slots-Discarded g (s ∷ ss) resident n h c = elim (Bool-cases (is_old g s)) [
    | inl t ↦ rw t (
        step (record s { state = free }) (sub_u64 resident s.audio.frame_count)
          (discard_slots g ss (sub_u64 resident s.audio.frame_count) (n + 1)) (λ q. cc)
          (omega arith) (unfold is_old in ground arith)
          (discard_slots-Discarded g ss (sub_u64 resident s.audio.frame_count) (n + 1) (omega arith)
            c.1))
    | inr t ↦ rw t (
        step s resident (discard_slots g ss resident n) c.0 h refl
          (discard_slots-Discarded g ss resident n h c.1))
  ]
    where
      step :
          (t : Slot F) (r : ℕ) (out : List (Slot F) × ℕ × ℕ)
          → Counted t
          → r < 2 ^ 64
          → (r + resident_weight s) % 2 ^ 64 ≡ (resident + resident_weight t) % 2 ^ 64
          → Discarded ss r out
          → Discarded (s ∷ ss) resident (t ∷ out.0, out.1, out.2)
      step t r out ct hr e d = (
        ap suc d.0,
        (ct, d.1),
        d.2,
        omega (arith, d.3, total-cons resident_weight s ss, total-cons resident_weight t out.0),
      )

  pub discard-IsValid : (p : Pool F) (g : ℕ) → IsValid p → IsValid (discard_before_generation p g).1
  unfolding discard_before_generation
  discard-IsValid p g v = record {
    accounted = omega (arith, d.2, d.3, v.accounted);
    counted = d.1;
    next_in = omega (arith, d.0, v.next_in);
  }
    where
      d : Discarded p.slots p.resident_frames (discard_slots g p.slots p.resident_frames 0)
      d = discard_slots-Discarded g p.slots p.resident_frames 0 (small_resident p v) v.counted

module _ (fl : Floats) (max_channels max_frames : ℕ) where
  open fl use {F}

  pub begin-IsValid :
      (p : Pool F) → IsValid max_frames p → IsValid max_frames (try_begin_write fl p).1
  unfolding try_begin_write
  begin-IsValid p v =
      elim (begin_from-Begun fl p (length p.slots) 0 (omega (arith, v.next_in)) (omega arith)) [
        | inl (e, _) ↦ rw e v
        | inr (i, s, g, f, e) ↦ rw e (
            rewrite-IsValid max_frames p i ((i + 1) % length p.slots) s _ v g (λ q. cc)
              (ground arith) (omega (arith, v.next_in)))
      ]

  -- The slot of a reservation that the worker holds.
  abbrev pub IsWriting : Pool F → ℕ → Type 0
  IsWriting p i = (s : Slot F) → get_elem? p.slots i ≡ some s → s.state ≡ writing

  pub publish-IsValid :
      (p : Pool F) (r : WriteReservation) (start generation : ℕ)
      → IsWriting p r.index
      → IsValid max_frames p
      → IsValid max_frames (publish fl max_channels max_frames p r start generation).1
  unfolding publish
  publish-IsValid p r start generation w v = elim (Option-cases (get_elem? p.slots r.index)) [
    | inl e ↦ ground (arith, cancel-IsValid max_frames p r v)
    | inr (s, e) ↦ ground (
      arith,
      cancel-IsValid max_frames p r v,
      w s e,
      replace-IsValid max_frames p r.index (add_u64 p.resident_frames s.audio.frame_count)
          p.next_write_index s
          (record s {
            start_frame = start;
            generation = generation;
            frame_count = s.audio.frame_count;
            state = ready;
          })
          v e,
      (validate_audio_block_iff fl max_channels max_frames s.audio).0,
      v.next_in,
    )
  ]
