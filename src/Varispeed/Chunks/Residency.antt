-- ===== src/Varispeed/Chunks/Residency.antt =====
-- `range_is_resident` decides whether every frame of the range is in a chunk.
use music_ra_t.Common.{
  ℕ, zero, suc, ◌-◌, ◌≤◌, ◌<◌, ◌≡◌, ◌↔◌, refl, inl, inr, List, [], ◌∷◌, Bool, true, false, none,
  some, arith, Bool-cases, Option-cases, ltb→lt, ltb, leb, min,
}
use music_ra_t.Varispeed.Chunks.{
  Chunk, chunk_end, holds_frame, find_chunk, resident_from, range_is_resident,
}

module _ {F : Type 0} where
  -- Some chunk has the frame.
  abbrev pub Found : List (Chunk F) → ℕ → Type 0
  Found cs frame = (c : Chunk F) × (find_chunk cs frame ≡ some c)

  find_chunk-holds_frame :
      (cs : List (Chunk F)) (frame : ℕ) (c : Chunk F)
      → find_chunk cs frame ≡ some c
      → holds_frame c frame ≡ true
  unfolding find_chunk
  find_chunk-holds_frame [] frame c h = cc
  find_chunk-holds_frame (x ∷ xs) frame c h = elim (Bool-cases (holds_frame x frame)) [
    | inl t ↦ ground (arith, t)
    | inr t ↦ find_chunk-holds_frame xs frame c (rw t at h)
  ]

  -- A chunk that is found at one of its frames is in the list, so its other frames are found too.
  find_chunk_other :
      (cs : List (Chunk F)) (frame other : ℕ) (c : Chunk F)
      → find_chunk cs frame ≡ some c
      → holds_frame c other ≡ true
      → Found cs other
  unfolding find_chunk
  find_chunk_other [] frame other c h k = absurd (ground arith)
  find_chunk_other (x ∷ xs) frame other c h k = elim (Bool-cases (holds_frame x other)) [
    | inl t ↦ (x, rw t)
    | inr t ↦ elim (Bool-cases (holds_frame x frame)) [
      | inl u ↦ absurd (ground (arith, u, t, k))
      | inr u ↦ rw t (find_chunk_other xs frame other c (rw u at h) k)
    ]
  ]

  abbrev pub Covered : List (Chunk F) → ℕ → ℕ → Type 0
  Covered cs start end_ = (frame : ℕ) → start ≤ frame → frame < end_ → Found cs frame

  -- A round that finds a chunk goes on behind it, or at the end.
  Covered-step :
      (cs : List (Chunk F)) (cursor end_ : ℕ) (c : Chunk F)
      → find_chunk cs cursor ≡ some c
      → Covered cs (min (chunk_end c) end_) end_ ↔ Covered cs cursor end_
  unfolding holds_frame
  Covered-step cs cursor end_ c h = (forth, λ k frame lo hi. k frame (omega (arith, inside)) hi)
    where
      inside : (c.start_frame ≤ cursor) × (cursor < chunk_end c)
      inside = ground (arith, find_chunk-holds_frame cs cursor c h)

      forth : Covered cs (min (chunk_end c) end_) end_ → Covered cs cursor end_
      forth k frame lo hi = elim (Bool-cases (ltb frame (chunk_end c))) [
        | inl t ↦ find_chunk_other cs cursor frame c h (ground (arith, inside))
        | inr t ↦ k frame (ground (arith, t)) hi
      ]

  resident_from_lem :
      (fuel cursor end_ : ℕ) (cs : List (Chunk F))
      → end_ - cursor < fuel
      → (b : Bool) × (resident_from fuel cursor end_ cs ≡ some b)
        × ((b ≡ true) ↔ Covered cs cursor end_)
  unfolding resident_from holds_frame
  resident_from_lem zero cursor end_ cs h = absurd (omega arith)
  resident_from_lem (suc fuel) cursor end_ cs h = elim (Bool-cases (ltb cursor end_)) [
    | inr t ↦ (true, ground (arith, t), (λ e frame lo hi. absurd (ground (arith, t)), λ k. refl))
    | inl t ↦ elim (Option-cases (find_chunk cs cursor)) [
      | inl e ↦ (
        false,
        ground (arith, t, e),
        (λ q. absurd cc, λ k. absurd (missing e (k cursor (omega arith) (ltb→lt _ _ t)))),
      )
      | inr (c, e) ↦ elim (Bool-cases (leb (chunk_end c) cursor)) [
        | inl u ↦ absurd (behind c e u)
        | inr u ↦
            let on =
              resident_from_lem fuel (min (chunk_end c) end_) end_ cs (ground (arith, u, t)) in
            let both = Covered-step cs cursor end_ c e in
            (on.0, ground (arith, t, e, u, on.1), (λ q. both.0 (on.2.0 q), λ k. on.2.1 (both.1 k)))
      ]
    ]
  ]
    where
      missing : find_chunk cs cursor ≡ none → Found cs cursor → ⊥
      missing e (c, q) = ground (arith, e, q)

      behind : (c : Chunk F) → find_chunk cs cursor ≡ some c → leb (chunk_end c) cursor ≡ true → ⊥
      behind c e u = ground (arith, find_chunk-holds_frame cs cursor c e)

  -- `range_is_resident` ends on the fuel that it takes, and is true exactly if every frame from
  -- `start` up to `end_` is in a chunk.
  pub range_is_resident_lem :
      (start end_ : ℕ) (cs : List (Chunk F))
      → (b : Bool) × (range_is_resident start end_ cs ≡ some b)
        × ((b ≡ true) ↔ Covered cs start end_)
  unfolding range_is_resident
  range_is_resident_lem start end_ cs =
      resident_from_lem (suc (end_ - start)) start end_ cs (omega arith)
