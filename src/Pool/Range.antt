-- ===== src/Pool/Range.antt =====
-- `buffered_range`: the frames between the first and the last buffered one.
use music_ra_t.Common.{
  ℕ, zero, suc, ◌+◌, ◌-◌, ◌^◌, ◌≤◌, ◌<◌, ◌≡◌, refl, ◌⊎◌, inl, inr, List, [], ◌∷◌, Bool, true, false,
  some, arith, get_elem?, ltb, if◌then◌else◌, Bool-cases,
}
use mathlib.Core.Path.{subst}
use music_ra_t.Pool.{
  Pool, Slot, BufferedFrameRange, is_resident, widen, skipped, range_slots, buffered_range,
}

module _ {F : Type 0} where
  -- The slots that the range is about.
  abbrev pub Buffered : ℕ → Slot F → Type 0
  Buffered generation s =
      (is_resident s.state ≡ true) × (s.generation ≡ generation) × (0 < s.frame_count)

  -- Where the frames of a slot end, at most at the largest 64-bit number.
  abbrev pub end_of : Slot F → ℕ
  end_of s =
      if ltb (2 ^ 64 - 1 - s.frame_count) s.start_frame
      then 2 ^ 64 - 1
      else s.start_frame + s.frame_count

  -- Once something was found, the range only grows.
  range_slots-grows :
      (g : ℕ) (ss : List (Slot F)) (r : BufferedFrameRange)
      → ((range_slots g ss r true).start_frame ≤ r.start_frame)
        × (r.end_frame ≤ (range_slots g ss r true).end_frame)
  unfolding range_slots
  range_slots-grows g [] r = omega arith
  range_slots-grows g (s ∷ ss) r =
      ground (arith, range_slots-grows g ss r, range_slots-grows g ss (widen r true s))

  range_slots-covers :
      (g : ℕ) (ss : List (Slot F)) (r : BufferedFrameRange) (found : Bool) (j : ℕ) (s : Slot F)
      → get_elem? ss j ≡ some s
      → Buffered g s
      → ((range_slots g ss r found).start_frame ≤ s.start_frame)
        × (end_of s ≤ (range_slots g ss r found).end_frame)
  unfolding range_slots
  range_slots-covers g [] r found j s e b = cc
  range_slots-covers g (x ∷ ss) r found zero s e b =
      ground (arith, range_slots-grows g ss (widen r found x))
  range_slots-covers g (x ∷ ss) r found (suc j) s e b = range_slots-covers g ss _ _ j s e b

  -- A slot whose start, or whose end, is the number.
  abbrev pub StartsAt : ℕ → List (Slot F) → ℕ → Type 0
  StartsAt g ss n =
      (i : ℕ) × (s : Slot F) × (get_elem? ss i ≡ some s) × Buffered g s × (n ≡ s.start_frame)

  abbrev pub EndsAt : ℕ → List (Slot F) → ℕ → Type 0
  EndsAt g ss n = (i : ℕ) × (s : Slot F) × (get_elem? ss i ≡ some s) × Buffered g s × (n ≡ end_of s)

  skipped-Buffered : (g : ℕ) (s : Slot F) → skipped g s ≡ false → Buffered g s
  unfolding skipped
  skipped-Buffered g s e = (ground arith, ground arith, ground arith)

  Buffered-skipped : (g : ℕ) (s : Slot F) → Buffered g s → skipped g s ≡ false
  unfolding skipped
  Buffered-skipped g s b = ground arith

  abbrev Kept : ℕ → List (Slot F) → BufferedFrameRange → BufferedFrameRange → Type 0
  Kept g ss r r' =
      ((r'.start_frame ≡ r.start_frame) ⊎ StartsAt g ss r'.start_frame)
      × ((r'.end_frame ≡ r.end_frame) ⊎ EndsAt g ss r'.end_frame)

  Kept-skip :
      (g : ℕ) (s : Slot F) (ss : List (Slot F)) (r r' : BufferedFrameRange)
      → Kept g ss r r'
      → Kept g (s ∷ ss) r r'
  Kept-skip g s ss r r' (a, b) = (
    elim a [ inl e ↦ inl e | inr (i, x, q, b, n) ↦ inr (suc i, x, q, b, n) ],
    elim b [ inl e ↦ inl e | inr (i, x, q, b, n) ↦ inr (suc i, x, q, b, n) ],
  )

  Kept-widen :
      (g : ℕ) (s : Slot F) (ss : List (Slot F)) (r r' : BufferedFrameRange)
      → Buffered g s
      → Kept g ss (widen r true s) r'
      → Kept g (s ∷ ss) r r'
  unfolding widen
  Kept-widen g s ss r r' h (a, b) = (
    elim a [
      | inl e ↦ elim (Bool-cases (ltb s.start_frame r.start_frame)) [
        | inl t ↦ inr (0, s, refl, h, ground arith)
        | inr t ↦ inl (ground arith)
      ]
      | inr (i, x, q, b, n) ↦ inr (suc i, x, q, b, n)
    ],
    elim b [
      | inl e ↦ elim (Bool-cases (ltb r.end_frame (end_of s))) [
        | inl t ↦ inr (0, s, refl, h, ground arith)
        | inr t ↦ inl (ground arith)
      ]
      | inr (i, x, q, b, n) ↦ inr (suc i, x, q, b, n)
    ],
  )

  range_slots-skip :
      (g : ℕ) (s : Slot F) (ss : List (Slot F)) (r : BufferedFrameRange) (found : Bool)
      → skipped g s ≡ true
      → range_slots g (s ∷ ss) r found ≡ range_slots g ss r found
  unfolding range_slots
  range_slots-skip g s ss r found t = rw t

  range_slots-widen :
      (g : ℕ) (s : Slot F) (ss : List (Slot F)) (r : BufferedFrameRange) (found : Bool)
      → skipped g s ≡ false
      → range_slots g (s ∷ ss) r found ≡ range_slots g ss (widen r found s) true
  unfolding range_slots
  range_slots-widen g s ss r found t = rw t

  range_slots-Kept :
      (g : ℕ) (ss : List (Slot F)) (r : BufferedFrameRange) → Kept g ss r (range_slots g ss r true)
  range_slots-Kept g [] r = unfold range_slots in (inl refl, inl refl)
  range_slots-Kept g (s ∷ ss) r = elim (Bool-cases (skipped g s)) [
    | inl t ↦ rw (range_slots-skip g s ss r true t) (Kept-skip g s ss r _ (range_slots-Kept g ss r))
    | inr t ↦
        rw (range_slots-widen g s ss r true t)
          (Kept-widen g s ss r _ (skipped-Buffered g s t) (range_slots-Kept g ss (widen r true s)))
  ]

  -- Both ends of the range come from buffered slots, or there is none and the range is left alone.
  abbrev pub IsTight : ℕ → List (Slot F) → BufferedFrameRange → BufferedFrameRange → Type 0
  IsTight g ss r r' =
      ((r' ≡ r) × ((i : ℕ) (s : Slot F) → get_elem? ss i ≡ some s → ¬ Buffered g s))
      ⊎ (StartsAt g ss r'.start_frame × EndsAt g ss r'.end_frame)

  IsTight-skip :
      (g : ℕ) (s : Slot F) (ss : List (Slot F)) (r r' : BufferedFrameRange)
      → ¬ Buffered g s
      → IsTight g ss r r'
      → IsTight g (s ∷ ss) r r'
  IsTight-skip g s ss r r' no_s (inl (e, none)) = inl (e, every)
    where
      every : (i : ℕ) (x : Slot F) → get_elem? (s ∷ ss) i ≡ some x → ¬ Buffered g x
      every zero x q b = no_s (subst (Buffered g) {x = x} {y = s} (cc) b)
      every (suc i) x q b = none i x q b
  IsTight-skip g s ss r r' no_s (inr (a, b)) =
      inr ((suc a.0, a.1, a.2, a.3, a.4), (suc b.0, b.1, b.2, b.3, b.4))

  IsTight-first :
      (g : ℕ) (s : Slot F) (ss : List (Slot F)) (r r' : BufferedFrameRange)
      → Buffered g s
      → Kept g ss (widen r false s) r'
      → IsTight g (s ∷ ss) r r'
  unfolding widen
  IsTight-first g s ss r r' h (a, b) = inr (
    elim a [ inl e ↦ (0, s, refl, h, e) | inr (i, x, q, b, n) ↦ (suc i, x, q, b, n) ],
    elim b [ inl e ↦ (0, s, refl, h, e) | inr (i, x, q, b, n) ↦ (suc i, x, q, b, n) ],
  )

  range_slots-IsTight :
      (g : ℕ) (ss : List (Slot F)) (r : BufferedFrameRange)
      → IsTight g ss r (range_slots g ss r false)
  range_slots-IsTight g [] r = unfold range_slots in inl (refl, λ i s e. cc)
  range_slots-IsTight g (s ∷ ss) r = elim (Bool-cases (skipped g s)) [
    | inl t ↦
        rw (range_slots-skip g s ss r false t)
          (IsTight-skip g s ss r _ (λ b. cc (Buffered-skipped g s b)) (range_slots-IsTight g ss r))
    | inr t ↦ rw (range_slots-widen g s ss r false t) (
        IsTight-first g s ss r _ (skipped-Buffered g s t) (range_slots-Kept g ss (widen r false s)))
  ]

  -- The range of a generation contains the frames of every resident, non-empty slot of it, and is
  -- the least such range: each of its ends is the end of such a slot, or there is no such slot and
  -- the range is 0 to 0.
  pub buffered_range_lem :
      (p : Pool F) (generation : ℕ)
      → ((j : ℕ) (s : Slot F)
          → get_elem? p.slots j ≡ some s
          → Buffered generation s
          → ((buffered_range p generation).start_frame ≤ s.start_frame)
            × (end_of s ≤ (buffered_range p generation).end_frame))
        × IsTight generation p.slots
            (record { start_frame = 0; end_frame = 0 })
            (buffered_range p generation)
  unfolding buffered_range
  buffered_range_lem p generation = (
    λ j s e b. range_slots-covers generation p.slots _ false j s e b,
    range_slots-IsTight generation p.slots _,
  )
