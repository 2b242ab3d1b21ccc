-- ===== src/DecodeAheadRenderer.antt =====
-- include/musicrat/backends/media/decode_ahead_renderer.hpp, without the build option for the pitch
-- lock: a renderer that takes its chunks from a pool. The pool, which the class refers to, is a
-- member of the model.
pub mod Ownership
pub mod Calls
use music_ra_t.Common.{
  ℕ, List, [], ◌∷◌, Bool, true, false, Option, none, some, get_elem?, length, if◌then◌else◌,
  replicate,
}
use music_ra_t.Common.Floats.{Floats}
use music_ra_t.Audio.{AudioBlock}
use music_ra_t.Pool.{Pool, Slot, ReadReservation, no_read, try_acquire_ready, release}
use music_ra_t.Protocol.{Block, DeckControlEvent}
use music_ra_t.Varispeed.{
  Renderer, new_renderer, prepare, take_seek_request, clear_track_controls, set_rate_immediate,
  ramp_rate, set_playing, retention_floor,
}
use music_ra_t.Varispeed.Chunks.{View}
use music_ra_t.Varispeed.Rendering.{Rendered, VarispeedRenderResult, render, render_underrun}

pub record DecodeAheadRenderer (F : Type 0) : Type 0 where
  pub pool : Pool F
  pub renderer : Renderer F
  pub reservations : List ReadReservation
  pub output_channel_count : ℕ

-- `ReadReservation::operator bool`
abbrev pub is_held : ReadReservation → Bool
is_held r = elim r.chunk.audio [ none ↦ false | some i ↦ true ]

module _ {F : Type 0} where
  -- The block that a pointer points to.
  abbrev pub block_at : Pool F → Option ℕ → Option (AudioBlock F)
  block_at p none = none
  block_at p (some i) = elim (get_elem? p.slots i) [ none ↦ none | some s ↦ some s.audio ]

  pub view_of : Pool F → ReadReservation → View F
  view_of p r = record {
    audio = block_at p r.chunk.audio;
    start_frame = r.chunk.start_frame;
    generation = r.chunk.generation;
  }

  pub acquire_ready_chunks : ℕ → List ReadReservation → Pool F → List ReadReservation × Pool F
  acquire_ready_chunks generation [] p = ([], p)
  acquire_ready_chunks generation (r ∷ rs) p =
      let (kept, kept_pool) = acquire_ready_chunks generation rs p in
      let (got, q) = try_acquire_ready p generation in
      let (rest, rest_pool) = acquire_ready_chunks generation rs q in
      if is_held r
      then (r ∷ kept, kept_pool)
      else if is_held got
      then (got ∷ rest, rest_pool)
      else (got ∷ rs, q)

  pub release_all : List ReadReservation → Pool F → List ReadReservation × Pool F
  release_all [] p = ([], p)
  release_all (r ∷ rs) p =
      let (rest, q) = release_all rs (if is_held r then release p r else p) in
      ((if is_held r then no_read else r) ∷ rest, q)

  -- The chunks of the reservations that are held, in order.
  pub held_views : Pool F → List ReadReservation → List (View F)
  unfolding view_of
  held_views p [] = []
  held_views p (r ∷ rs) = let vs = held_views p rs in if is_held r then view_of p r ∷ vs else vs

  frames_at : Option (AudioBlock F) → ℕ
  frames_at none = 0
  frames_at (some b) = b.frame_count

  -- `views[0].audio->channel_count`; a null pointer is not read.
  first_channels : List (View F) → ℕ
  first_channels [] = 0
  first_channels (v ∷ vs) = elim v.audio [ none ↦ 0 | some b ↦ b.channel_count ]

module _ (fl : Floats) where
  open fl use {F, le, add, of_ℕ}

  pub is_consumed : F → Pool F → ReadReservation → Bool
  unfolding frames_at
  is_consumed position p r =
      le (add (of_ℕ r.chunk.start_frame) (of_ℕ (frames_at (block_at p r.chunk.audio)))) position

  -- The loop of `release_consumed`.
  pub release_behind : F → List ReadReservation → Pool F → List ReadReservation × Pool F
  release_behind position [] p = ([], p)
  release_behind position (r ∷ rs) p =
      let (kept, kept_pool) = release_behind position rs p in
      let (rest, rest_pool) = release_behind position rs (release p r) in
      if is_held r
      then if is_consumed position p r then (no_read ∷ rest, rest_pool) else (r ∷ kept, kept_pool)
      else (r ∷ kept, kept_pool)

  pub release_consumed : DecodeAheadRenderer F → DecodeAheadRenderer F
  unfolding release_behind
  release_consumed d =
      let (rs, p) = release_behind (retention_floor fl d.renderer) d.reservations d.pool in
      record d { reservations = rs; pool = p }

  -- A renderer over a pool, with as many reservations as the pool has slots.
  unfoldable pub make : Pool F → DecodeAheadRenderer F
  make p = record {
    pool = p;
    renderer = new_renderer fl;
    reservations = replicate (length p.slots) no_read;
    output_channel_count = 0;
  }

  -- `retire`, and the call of `release_all` in other methods.
  pub retire : DecodeAheadRenderer F → DecodeAheadRenderer F
  unfolding release_all
  retire d =
      let (rs, p) = release_all d.reservations d.pool in record d { reservations = rs; pool = p }

  pub prepare_at : ℕ → F → ℕ → DecodeAheadRenderer F → DecodeAheadRenderer F
  unfolding retire
  prepare_at generation media_position channel_count d =
      let e = retire d in
      record e {
        output_channel_count = channel_count;
        renderer = prepare fl generation media_position e.renderer;
      }

  -- A method that only calls the one of the renderer.
  pub with_renderer : (Renderer F → Renderer F) → DecodeAheadRenderer F → DecodeAheadRenderer F
  with_renderer f d = record d { renderer = f d.renderer }

  pub record Played : Type 0 where
    pub result : VarispeedRenderResult F
    pub output : AudioBlock F
    pub state : DecodeAheadRenderer F

  with_rendered : DecodeAheadRenderer F → Rendered fl → Played
  with_rendered d out = record {
    result = out.result;
    output = out.output;
    state = record d { renderer = out.renderer };
  }

  module _ (max_channels max_frames : ℕ) where
    pub render_suspended :
        F
        → ℕ
        → ℕ
        → ℕ
        → Option (Block (DeckControlEvent F))
        → DecodeAheadRenderer F
        → AudioBlock F
        → Played
    unfolding retire with_rendered
    render_suspended rate frames timestamp_ns sequence_number controls d output =
        let e = retire d in
        with_rendered e (
          render_underrun fl max_channels max_frames e.output_channel_count rate frames timestamp_ns
            sequence_number controls e.renderer output)

    -- Between `acquire_ready_chunks` and `release_consumed`.
    render_views :
        List (View F)
        → F
        → ℕ
        → ℕ
        → ℕ
        → Option (Block (DeckControlEvent F))
        → DecodeAheadRenderer F
        → AudioBlock F
        → Played
    unfolding with_rendered first_channels
    render_views [] rate frames timestamp_ns sequence_number controls d output = with_rendered d (
        render_underrun fl max_channels max_frames d.output_channel_count rate frames timestamp_ns
          sequence_number controls d.renderer output)
    render_views (v ∷ vs) rate frames timestamp_ns sequence_number controls d output =
        with_rendered (record d { output_channel_count = first_channels (v ∷ vs) })
          (render fl max_channels max_frames (v ∷ vs) rate frames timestamp_ns sequence_number
            controls d.renderer output [])

    consumed : Played → Played
    unfolding release_consumed
    consumed o = record o { state = release_consumed o.state }

    pub play :
        F
        → ℕ
        → ℕ
        → ℕ
        → Option (Block (DeckControlEvent F))
        → DecodeAheadRenderer F
        → AudioBlock F
        → Played
    unfolding acquire_ready_chunks held_views render_views consumed
    play rate frames timestamp_ns sequence_number controls d output =
        let (rs, p) = acquire_ready_chunks d.renderer.generation d.reservations d.pool in
        consumed (
          render_views (held_views p rs) rate frames timestamp_ns sequence_number controls
            (record d { reservations = rs; pool = p }) output)
