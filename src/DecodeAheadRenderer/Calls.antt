-- ===== src/DecodeAheadRenderer/Calls.antt =====
-- What every call of the renderer over a pool keeps.
use music_ra_t.Common.{
  ℕ, zero, suc, ◌≡◌, refl, inl, inr, List, [], ◌∷◌, true, false, Option, arith, Bool-cases, length,
  All, All-map, total, total-nil, total-cons, replicate,
}
use music_ra_t.Common.Floats.{Floats}
use music_ra_t.Audio.{AudioBlock}
use music_ra_t.Pool.{Pool, ReadReservation, no_read, is_reading}
use music_ra_t.Pool.Readers.{reserves, reads, reads-none}
use music_ra_t.Protocol.{Block, DeckControlEvent}
use music_ra_t.Varispeed.{Renderer, generation-prepare, retention_floor}
use music_ra_t.Varispeed.Chunks.{View}
use music_ra_t.Varispeed.Rendering.Generation.{
  generation-render, generation-render_underrun, generation_mismatch-render,
  generation_mismatch-render_underrun,
}
use music_ra_t.DecodeAheadRenderer.{
  DecodeAheadRenderer, Played, is_held, view_of, held_views, acquire_ready_chunks, release_consumed,
  make, retire, prepare_at, with_renderer, render_suspended, render_views, with_rendered, consumed,
  play,
}
use music_ra_t.DecodeAheadRenderer.Ownership.{
  IsReservation, reserves-unheld, Balanced, acquire_ready_chunks-Keeps, release_behind-Keeps,
  release_all-Keeps,
}

abbrev none_taken : ℕ → ℕ
none_taken i = 0

-- Each reservation is empty, or for a slot of the renderer's generation; a slot is being read
-- exactly if it is reserved, and by one reservation.
pub record IsOwner {F : Type 0} (generation : ℕ) (pool : Pool F) (rs : List ReadReservation)
    : Type 0 where
  pub valid : All (IsReservation generation) rs
  pub owned : Balanced none_taken pool rs

total-unheld :
    (i : ℕ) (rs : List ReadReservation)
    → All (λ r. is_held r ≡ false) rs
    → total (reserves i) rs ≡ 0
total-unheld i [] h = total-nil (reserves i)
total-unheld i (r ∷ rs) h =
    omega (arith, total-cons (reserves i) r rs, reserves-unheld i r h.0, total-unheld i rs h.1)

module _ {F : Type 0} where
  abbrev pub IsOwnerOf : DecodeAheadRenderer F → Type 0
  IsOwnerOf d = IsOwner d.renderer.generation d.pool d.reservations

module _ (fl : Floats) where
  open fl use {F}

  regenerated-IsOwner :
      (g g' : ℕ) (p : Pool F) (rs : List ReadReservation)
      → g ≡ g'
      → IsOwner g' p rs
      → IsOwner g p rs
  regenerated-IsOwner g g' p rs e h = record { valid = rw e h.valid; owned = h.owned }

  -- After `retire` nothing is reserved, and no slot is being read.
  pub retire_lem :
      (d : DecodeAheadRenderer F)
      → IsOwnerOf d
      → (All (λ r. is_held r ≡ false) (retire fl d).reservations)
        × ((i : ℕ) → reads (retire fl d).pool i ≡ 0)
  unfolding retire
  retire_lem d h =
      release_all-Keeps fl d.renderer.generation d.reservations none_taken d.pool h.valid h.owned

  emptied-IsOwner :
      (g : ℕ) (p : Pool F) (rs : List ReadReservation)
      → All (λ r. is_held r ≡ false) rs
      → ((i : ℕ) → reads p i ≡ 0)
      → IsOwner g p rs
  emptied-IsOwner g p rs u z = record {
    valid = All-map _ _ rs (λ r e. inl e) u;
    owned = λ i. omega (arith, z i, total-unheld i rs u);
  }

  pub make-IsOwner :
      (p : Pool F) → All (λ s. is_reading s.state ≡ false) p.slots → IsOwnerOf (make fl p)
  unfolding make
  make-IsOwner p z = emptied-IsOwner _ p _ (unheld (length p.slots)) (reads-none p z)
    where
      unheld : (n : ℕ) → All (λ r. is_held r ≡ false) (replicate n no_read)
      unheld zero = tt
      unheld (suc n) = (refl, unheld n)

  pub retire-IsOwner : (d : DecodeAheadRenderer F) → IsOwnerOf d → IsOwnerOf (retire fl d)
  unfolding retire
  retire-IsOwner d h = let t = retire_lem d h in emptied-IsOwner d.renderer.generation _ _ t.0 t.1

  pub generation-prepare_at :
      (generation : ℕ) (x : F) (channels : ℕ) (d : DecodeAheadRenderer F)
      → (prepare_at fl generation x channels d).renderer.generation ≡ generation
  unfolding prepare_at
  generation-prepare_at generation x channels d = generation-prepare fl generation x _

  pub prepare_at-IsOwner :
      (generation : ℕ) (x : F) (channels : ℕ) (d : DecodeAheadRenderer F)
      → IsOwnerOf d
      → IsOwnerOf (prepare_at fl generation x channels d)
  unfolding prepare_at retire
  prepare_at-IsOwner generation x channels d h =
      let t = retire_lem d h in emptied-IsOwner _ _ _ t.0 t.1

  -- A method of the renderer that keeps its generation.
  pub with_renderer-IsOwner :
      (f : Renderer F → Renderer F) (d : DecodeAheadRenderer F)
      → (f d.renderer).generation ≡ d.renderer.generation
      → IsOwnerOf d
      → IsOwnerOf (with_renderer fl f d)
  unfolding with_renderer
  with_renderer-IsOwner f d e h = record { valid = rw e h.valid; owned = h.owned }

  release_consumed-IsOwner :
      (d : DecodeAheadRenderer F) → IsOwnerOf d → IsOwnerOf (release_consumed fl d)
  unfolding release_consumed
  release_consumed-IsOwner d h =
      let t =
        release_behind-Keeps fl (retention_floor fl d.renderer) d.renderer.generation d.reservations
          none_taken d.pool h.valid h.owned in
      record { valid = t.0; owned = t.1 }

  held_views-generation :
      (g : ℕ) (p : Pool F) (rs : List ReadReservation)
      → All (IsReservation g) rs
      → All (λ v. v.generation ≡ g) (held_views p rs)
  unfolding held_views view_of
  held_views-generation g p [] h = tt
  held_views-generation g p (r ∷ rs) h = elim (Bool-cases (is_held r)) [
    | inl t ↦ rw t (of_held t h.0, held_views-generation g p rs h.1)
    | inr t ↦ rw t (held_views-generation g p rs h.1)
  ]
    where
      of_held : is_held r ≡ true → IsReservation g r → r.chunk.generation ≡ g
      of_held t (inl u) = absurd (ground (arith, t, u))
      of_held t (inr (_, e)) = e

  module _ (max_channels max_frames : ℕ) where
    pub render_suspended-IsOwner :
        (x : F) (frames ts sn : ℕ) (controls : Option (Block (DeckControlEvent F)))
        (d : DecodeAheadRenderer F) (o : AudioBlock F)
        → IsOwnerOf d
        → IsOwnerOf (render_suspended fl max_channels max_frames x frames ts sn controls d o).state
    unfolding render_suspended with_rendered
    render_suspended-IsOwner x frames ts sn controls d o h =
        regenerated-IsOwner _ _ _ _
          (generation-render_underrun fl max_channels max_frames _ x frames ts sn controls _ o)
          (retire-IsOwner d h)

    -- No mismatch, the generation as it was, and what is owned stays owned.
    abbrev IsSound : ℕ → Played fl → Type 0
    IsSound g out =
        IsOwnerOf out.state
        × (out.result.generation_mismatch ≡ false)
        × (out.state.renderer.generation ≡ g)

    pub generation-render_suspended :
        (x : F) (frames ts sn : ℕ) (controls : Option (Block (DeckControlEvent F)))
        (d : DecodeAheadRenderer F) (o : AudioBlock F)
        → let out = render_suspended fl max_channels max_frames x frames ts sn controls d o in
          (out.result.generation_mismatch ≡ false)
          × (out.state.renderer.generation ≡ d.renderer.generation)
    unfolding render_suspended with_rendered retire
    generation-render_suspended x frames ts sn controls d o = (
      generation_mismatch-render_underrun fl max_channels max_frames _ x frames ts sn controls _ o,
      generation-render_underrun fl max_channels max_frames _ x frames ts sn controls _ o,
    )

    render_views-IsSound :
        (vs : List (View F)) (x : F) (frames ts sn : ℕ)
        (controls : Option (Block (DeckControlEvent F))) (d : DecodeAheadRenderer F)
        (o : AudioBlock F)
        → All (λ v. v.generation ≡ d.renderer.generation) vs
        → IsOwnerOf d
        → IsSound d.renderer.generation
            (render_views fl max_channels max_frames vs x frames ts sn controls d o)
    unfolding render_views with_rendered
    render_views-IsSound [] x frames ts sn controls d o a h = (
      regenerated-IsOwner _ _ _ _
          (generation-render_underrun fl max_channels max_frames d.output_channel_count x frames ts
            sn controls d.renderer o)
          h,
      generation_mismatch-render_underrun fl max_channels max_frames d.output_channel_count x frames
          ts sn controls d.renderer o,
      generation-render_underrun fl max_channels max_frames d.output_channel_count x frames ts sn
          controls d.renderer o,
    )
    render_views-IsSound (v ∷ vs) x frames ts sn controls d o a h = (
      regenerated-IsOwner _ _ _ _
          (generation-render fl max_channels max_frames (v ∷ vs) x frames ts sn controls d.renderer
            o [])
          h,
      generation_mismatch-render fl max_channels max_frames (v ∷ vs) x frames ts sn controls
          d.renderer o [] a,
      generation-render fl max_channels max_frames (v ∷ vs) x frames ts sn controls d.renderer o [],
    )

    consumed-IsSound :
        (g : ℕ) (out : Played fl)
        → IsSound g out
        → IsSound g (consumed fl max_channels max_frames out)
    unfolding consumed release_consumed
    consumed-IsSound g out h = (release_consumed-IsOwner out.state h.0, h.1, h.2)

    -- If before the call each reservation is empty or for a slot of the renderer's generation, and a
    -- slot is being read exactly if one reservation has it, then so it is after `render`, no
    -- chunk of another generation was met, and the generation is as it was.
    pub play_lem :
        (x : F) (frames ts sn : ℕ) (controls : Option (Block (DeckControlEvent F)))
        (d : DecodeAheadRenderer F) (o : AudioBlock F)
        → IsOwnerOf d
        → let out = play fl max_channels max_frames x frames ts sn controls d o in
          IsOwnerOf out.state
          × (out.result.generation_mismatch ≡ false)
          × (out.state.renderer.generation ≡ d.renderer.generation)
    unfolding play
    play_lem x frames ts sn controls d o h =
        let (rs, p) = acquire_ready_chunks d.renderer.generation d.reservations d.pool in
        let k =
          acquire_ready_chunks-Keeps fl d.renderer.generation d.reservations none_taken d.pool
            h.valid h.owned in
        consumed-IsSound d.renderer.generation
          (render_views fl max_channels max_frames (held_views p rs) x frames ts sn controls
            (record d { reservations = rs; pool = p }) o)
          (render_views-IsSound (held_views p rs) x frames ts sn controls
            (record d { reservations = rs; pool = p }) o
            (held_views-generation d.renderer.generation p rs k.0)
            (record { valid = k.0; owned = k.1 }))
