-- ===== src/Varispeed.antt =====
-- include/musicrat/dsp/varispeed_renderer.hpp: the state of the renderer and the methods on it that
-- do not render. The audio chunks are in Varispeed.Chunks, the deck controls in Varispeed.Controls
-- and the two `render` methods in Varispeed.Rendering.
pub mod Chunks
pub mod Consistent
pub mod Controls
pub mod Frames
pub mod History
pub mod Loop
pub mod Rendering
use music_ra_t.Common.{
  ℕ, Bool, true, false, ◌&&◌, ◌||◌, not, Option, none, some, ◌==◌, ◌≡◌, arith, if◌then◌else◌,
}
use music_ra_t.Common.Floats.{Floats, min_f, max_f}

pub record Renderer (F : Type 0) : Type 0 where
  pub generation : ℕ
  pub media_position : F
  pub current_rate : F
  pub target_rate : F
  pub rate_increment : F
  pub active_minimum_rate : F
  pub active_maximum_rate : F
  pub rate_ramp_frames : ℕ
  pub cue_frame : ℕ
  pub loop_start_frame : ℕ
  pub loop_end_frame : ℕ
  pub playing : Bool
  pub pending_discontinuity : Bool
  pub cue_set : Bool
  pub cue_preview_active : Bool
  pub cue_button_held : Bool
  pub cue_hold_pending : Bool
  pub cue_seek_requested : Bool
  pub cue_seek_in_flight : Bool
  pub loop_start_set : Bool
  pub loop_end_set : Bool
  pub loop_enabled : Bool

-- `DeckMarkerState`, of protocol/deck_control.hpp.
pub record DeckMarkerState : Type 0 where
  pub cue_frame : ℕ
  pub loop_start_frame : ℕ
  pub loop_end_frame : ℕ
  pub cue_set : Bool
  pub loop_start_set : Bool
  pub loop_end_set : Bool
  pub loop_enabled : Bool

module _ (fl : Floats) where
  open fl use {F, is_finite, lt, le, eq, sub, div, of_ℕ, decimal}

  -- A renderer as the initialisers of its members make it.
  unfoldable pub new_renderer : Renderer F
  new_renderer = record {
    generation = 0;
    media_position = of_ℕ 0;
    current_rate = of_ℕ 1;
    target_rate = of_ℕ 1;
    rate_increment = of_ℕ 0;
    active_minimum_rate = decimal 25 2;
    active_maximum_rate = of_ℕ 4;
    rate_ramp_frames = 0;
    cue_frame = 0;
    loop_start_frame = 0;
    loop_end_frame = 0;
    playing = true;
    pending_discontinuity = true;
    cue_set = false;
    cue_preview_active = false;
    cue_button_held = false;
    cue_hold_pending = false;
    cue_seek_requested = false;
    cue_seek_in_flight = false;
    loop_start_set = false;
    loop_end_set = false;
    loop_enabled = false;
  }

  pub set_rate_bounds : F → F → Renderer F → Bool × Renderer F
  set_rate_bounds minimum maximum r =
      if not (is_finite minimum)
        || not (is_finite maximum)
        || lt minimum (decimal 25 2)
        || lt (of_ℕ 4) maximum
        || lt maximum minimum
        || lt r.current_rate minimum
        || lt maximum r.current_rate
      then (false, r)
      else (true, record r { active_minimum_rate = minimum; active_maximum_rate = maximum })

  -- `cue_seek_landed`
  abbrev cue_seek_landed : Renderer F → F → Bool
  cue_seek_landed r position = r.cue_seek_in_flight && r.cue_set && eq position (of_ℕ r.cue_frame)

  pub prepare : ℕ → F → Renderer F → Renderer F
  prepare generation media_position r =
      let position = max_f fl (of_ℕ 0) media_position in
      let prepared : Renderer F = record r {
        generation = generation;
        media_position = position;
        pending_discontinuity = true;
        loop_enabled = false;
        cue_seek_in_flight = false;
        cue_seek_requested = false;
      } in
      if cue_seek_landed r position
      then record prepared {
        playing = r.cue_preview_active && r.cue_button_held;
        cue_preview_active = r.cue_preview_active && r.cue_button_held;
      }
      else record prepared {
        cue_preview_active = false;
        cue_button_held = false;
        cue_hold_pending = false;
      }

  pub generation-prepare :
      (generation : ℕ) (x : F) (r : Renderer F) → (prepare generation x r).generation ≡ generation
  unfolding prepare
  generation-prepare generation x r = ground arith

  -- The frame to seek, if there is one.
  pub take_seek_request : Renderer F → Option ℕ × Renderer F
  take_seek_request r =
      if not r.cue_seek_requested
      then (none, r)
      else (some r.cue_frame, record r { cue_seek_requested = false })

  pub clear_track_controls : Renderer F → Renderer F
  clear_track_controls r = record r {
    cue_frame = 0;
    cue_set = false;
    loop_start_frame = 0;
    loop_end_frame = 0;
    loop_start_set = false;
    loop_end_set = false;
    loop_enabled = false;
    cue_preview_active = false;
    cue_button_held = false;
    cue_hold_pending = false;
    cue_seek_requested = false;
    cue_seek_in_flight = false;
  }

  unfoldable pub valid_rate : Renderer F → F → Bool
  valid_rate r rate =
      is_finite rate && le r.active_minimum_rate rate && le rate r.active_maximum_rate

  pub set_rate_immediate : F → Renderer F → Bool × Renderer F
  set_rate_immediate rate r = if not (valid_rate r rate) then (false, r) else (
    true,
    record r {
      current_rate = rate;
      target_rate = rate;
      rate_increment = of_ℕ 0;
      rate_ramp_frames = 0;
    },
  )

  pub ramp_rate : F → ℕ → Renderer F → Bool × Renderer F
  unfolding set_rate_immediate
  ramp_rate rate render_frames r =
      let ramped : Renderer F = record r { target_rate = rate; rate_ramp_frames = render_frames } in
      if not (valid_rate r rate)
      then (false, r)
      else if render_frames == 0
      then set_rate_immediate rate ramped
      else (
        true,
        record ramped { rate_increment = div (sub rate r.current_rate) (of_ℕ render_frames) },
      )

  pub set_playing : Bool → Renderer F → Renderer F
  set_playing playing r = record r { playing = playing }

  pub retention_floor : Renderer F → F
  retention_floor r =
      if r.loop_enabled
      then min_f fl r.media_position (of_ℕ r.loop_start_frame)
      else r.media_position

  pub markers : Renderer F → DeckMarkerState
  markers r = record {
    cue_frame = r.cue_frame;
    loop_start_frame = r.loop_start_frame;
    loop_end_frame = r.loop_end_frame;
    cue_set = r.cue_set;
    loop_start_set = r.loop_start_set;
    loop_end_set = r.loop_end_set;
    loop_enabled = r.loop_enabled;
  }
