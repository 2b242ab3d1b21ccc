-- ===== src/Varispeed/Controls.antt =====
-- `apply_control` and what it calls: the deck controls of the renderer.
pub mod Consistent
pub mod Generation
use music_ra_t.Common.{
  ℕ, ◌-◌, ◌^◌, List, [], ◌∷◌, Bool, true, false, ◌&&◌, ◌||◌, not, Option, none, some, ltb, ◌==◌,
  if◌then◌else◌, set_flag, sub_u64,
}
use music_ra_t.Common.Floats.{Floats}
use music_ra_t.Audio.{AudioBlock, audio_block_discontinuity}
use music_ra_t.Protocol.{DeckControlEvent}
use music_ra_t.Varispeed.{Renderer, set_playing, set_rate_immediate, ramp_rate}
use music_ra_t.Varispeed.Chunks.{Chunk, find_chunk, range_is_resident}

-- The flag that a jump of the position sets on the output.
abbrev pub discontinued : ℕ → ℕ
discontinued flags = set_flag flags audio_block_discontinuity

abbrev pub is_found : {F : Type 0} → Option (Chunk F) → Bool
is_found none = false
is_found (some c) = true

-- The fuel of `range_is_resident` does not run out.
abbrev pub is_yes : Option Bool → Bool
is_yes none = false
is_yes (some b) = b

module _ (fl : Floats) where
  open fl use {F, is_finite, le, eq, of_ℕ, to_ℕ, trunc, fmod, add, sub, lt}

  pub valid_frame_position : F → Bool
  valid_frame_position value =
      is_finite value
      && le (of_ℕ 0) value
      && le value (of_ℕ 9007199254740991)
      && eq (trunc value) value

  pub set_cue : F → Renderer F → Renderer F
  set_cue value r =
      if valid_frame_position value then record r { cue_frame = to_ℕ value; cue_set = true } else r

  -- The press at a frame, when the renderer neither plays nor waits for a seek.
  pub press_at : ℕ → Renderer F → Renderer F
  press_at frame r =
      let held : Renderer F = record r { cue_button_held = true; cue_hold_pending = false } in
      if r.cue_set && frame == r.cue_frame
      then record held { cue_preview_active = true; playing = true }
      else record held { cue_frame = frame; cue_set = true }

  pub cue_button_hold : Renderer F → Renderer F
  cue_button_hold r =
      if r.cue_button_held && r.cue_hold_pending && r.cue_set
      then record r {
        cue_preview_active = true;
        cue_hold_pending = false;
        playing = not r.cue_seek_in_flight;
      }
      else r

  pub set_loop_start : F → Renderer F → Renderer F
  set_loop_start value r =
      if valid_frame_position value
      then record r { loop_start_frame = to_ℕ value; loop_start_set = true; loop_enabled = false }
      else r

  pub set_loop_end : F → Renderer F → Renderer F
  set_loop_end value r =
      if valid_frame_position value
      then record r { loop_end_frame = to_ℕ value; loop_end_set = true; loop_enabled = false }
      else r

  pub wrap_loop_position : Renderer F → ℕ → Renderer F × ℕ
  wrap_loop_position r flags =
      let loop_start = of_ℕ r.loop_start_frame in
      let loop_length = of_ℕ (sub_u64 r.loop_end_frame r.loop_start_frame) in
      if not r.loop_enabled || lt r.media_position (of_ℕ r.loop_end_frame) then (r, flags) else (
        record r {
          media_position = add loop_start (fmod (sub r.media_position loop_start) loop_length);
        },
        discontinued flags,
      )

module _ (fl : Floats) (chunks : List (Chunk fl.F)) where
  open fl use {F, of_ℕ, to_ℕ, round}

  pub return_to_cue : Renderer F → ℕ → Renderer F × ℕ
  return_to_cue r flags =
      if is_found (find_chunk chunks r.cue_frame)
      then (
        record r { media_position = of_ℕ r.cue_frame; pending_discontinuity = true },
        discontinued flags,
      )
      else (record r { cue_seek_requested = true; cue_seek_in_flight = true }, flags)

  -- DECK_CONTROL_RETURN_TO_CUE
  pub jump_to_cue : Renderer F → ℕ → Renderer F × ℕ
  jump_to_cue r flags =
      if r.cue_set && is_found (find_chunk chunks r.cue_frame)
      then (record r { media_position = of_ℕ r.cue_frame }, discontinued flags)
      else (r, flags)

  pub cue_button_down : Renderer F → ℕ → Renderer F × ℕ
  cue_button_down r flags =
      if r.playing
      then if r.cue_set
        then return_to_cue
            (record r {
              playing = false;
              cue_preview_active = false;
              cue_button_held = true;
              cue_hold_pending = true;
            })
            flags
        else (r, flags)
      else if r.cue_seek_in_flight
      then (
        record r { cue_button_held = true; cue_hold_pending = false; cue_preview_active = true },
        flags,
      )
      else if valid_frame_position fl (round r.media_position)
      then (press_at fl (to_ℕ (round r.media_position)) r, flags)
      else (r, flags)

  pub cue_button_up : Renderer F → ℕ → Renderer F × ℕ
  cue_button_up r flags =
      let let_go : Renderer F = record r { cue_button_held = false; cue_hold_pending = false } in
      let stopped : Renderer F = record let_go { playing = false; cue_preview_active = false } in
      if r.cue_preview_active
      then if r.cue_set && not r.cue_seek_in_flight
        then return_to_cue stopped flags
        else (stopped, flags)
      else (let_go, flags)

  pub enable_loop : Renderer F → Renderer F
  enable_loop r =
      if ltb r.loop_start_frame r.loop_end_frame
        && is_yes (range_is_resident r.loop_start_frame r.loop_end_frame chunks)
      then record r { loop_enabled = true; loop_start_set = true }
      else record r { loop_enabled = false }

  -- The renderer and the flags of the output after a control. The types are numbered as in
  -- protocol/deck_control.hpp.
  pub apply_control : DeckControlEvent F → Renderer F → ℕ → Renderer F × ℕ
  apply_control c r flags =
      if c.type == 0
      then (set_playing fl true r, flags)
      else if c.type == 1
      then (set_playing fl false r, flags)
      else if c.type == 2
      then ((set_rate_immediate fl c.value r).1, flags)
      else if c.type == 3
      then ((ramp_rate fl c.value c.ramp_frames r).1, flags)
      else if c.type == 4
      then (set_cue fl c.value r, flags)
      else if c.type == 5
      then jump_to_cue r flags
      else if c.type == 6
      then (record r { cue_set = false }, flags)
      else if c.type == 7
      then (set_loop_start fl c.value r, flags)
      else if c.type == 8
      then (set_loop_end fl c.value r, flags)
      else if c.type == 9
      then (enable_loop r, flags)
      else if c.type == 10
      then (record r { loop_enabled = false }, flags)
      else if c.type == 11
      then cue_button_down r flags
      else if c.type == 12
      then cue_button_up r flags
      else if c.type == 13
      then (cue_button_hold fl r, flags)
      else (r, flags)
