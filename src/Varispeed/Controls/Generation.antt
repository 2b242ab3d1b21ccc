-- ===== src/Varispeed/Controls/Generation.antt =====
-- No deck control changes the generation of the renderer.
use music_ra_t.Common.{ℕ, ◌≡◌, List, arith, Bool, true, false}
use music_ra_t.Common.Floats.{Floats}
use music_ra_t.Protocol.{DeckControlEvent}
use music_ra_t.Varispeed.{Renderer, set_playing, set_rate_immediate, ramp_rate}
use music_ra_t.Varispeed.Chunks.{Chunk}
use music_ra_t.Varispeed.Controls.{
  set_cue, press_at, cue_button_hold, set_loop_start, set_loop_end, wrap_loop_position,
  return_to_cue, jump_to_cue, cue_button_down, cue_button_up, enable_loop, apply_control,
}

module _ (fl : Floats) where
  open fl use {F, to_ℕ, round}

  pub generation-wrap_loop_position :
      (r : Renderer F) (flags : ℕ) → (wrap_loop_position fl r flags).0.generation ≡ r.generation
  unfolding wrap_loop_position
  generation-wrap_loop_position r flags = ground arith

  generation-set_playing :
      (b : Bool) (r : Renderer F) → (set_playing fl b r).generation ≡ r.generation
  unfolding set_playing
  generation-set_playing b r = ground arith

  generation-set_rate_immediate :
      (x : F) (r : Renderer F) → ((set_rate_immediate fl x r).1).generation ≡ r.generation
  unfolding set_rate_immediate
  generation-set_rate_immediate x r = ground arith

  generation-ramp_rate :
      (x : F) (n : ℕ) (r : Renderer F) → ((ramp_rate fl x n r).1).generation ≡ r.generation
  unfolding ramp_rate set_rate_immediate
  generation-ramp_rate x n r = ground arith

  generation-set_cue : (x : F) (r : Renderer F) → (set_cue fl x r).generation ≡ r.generation
  unfolding set_cue
  generation-set_cue x r = ground arith

  generation-press_at :
      (frame : ℕ) (r : Renderer F) → (press_at fl frame r).generation ≡ r.generation
  unfolding press_at
  generation-press_at frame r = ground arith

  generation-cue_button_hold : (r : Renderer F) → (cue_button_hold fl r).generation ≡ r.generation
  unfolding cue_button_hold
  generation-cue_button_hold r = ground arith

  generation-set_loop_start :
      (x : F) (r : Renderer F) → (set_loop_start fl x r).generation ≡ r.generation
  unfolding set_loop_start
  generation-set_loop_start x r = ground arith

  generation-set_loop_end :
      (x : F) (r : Renderer F) → (set_loop_end fl x r).generation ≡ r.generation
  unfolding set_loop_end
  generation-set_loop_end x r = ground arith

  module _ (chunks : List (Chunk F)) where
    generation-return_to_cue :
        (r : Renderer F) (flags : ℕ)
        → ((return_to_cue fl chunks r flags).0).generation ≡ r.generation
    unfolding return_to_cue
    generation-return_to_cue r flags = ground arith

    generation-jump_to_cue :
        (r : Renderer F) (flags : ℕ) → ((jump_to_cue fl chunks r flags).0).generation ≡ r.generation
    unfolding jump_to_cue
    generation-jump_to_cue r flags = ground arith

    generation-enable_loop : (r : Renderer F) → (enable_loop fl chunks r).generation ≡ r.generation
    unfolding enable_loop
    generation-enable_loop r = ground arith

    generation-cue_button_down :
        (r : Renderer F) (flags : ℕ)
        → (cue_button_down fl chunks r flags).0.generation ≡ r.generation
    unfolding cue_button_down
    generation-cue_button_down r flags = ground (
      arith,
      generation-press_at (to_ℕ (round r.media_position)) r,
      generation-return_to_cue
          (record r {
            playing = false;
            cue_preview_active = false;
            cue_button_held = true;
            cue_hold_pending = true;
          })
          flags,
    )

    generation-cue_button_up :
        (r : Renderer F) (flags : ℕ) → (cue_button_up fl chunks r flags).0.generation ≡ r.generation
    unfolding cue_button_up
    generation-cue_button_up r flags = ground (
      arith,
      generation-return_to_cue
          (record r {
            cue_button_held = false;
            cue_hold_pending = false;
            playing = false;
            cue_preview_active = false;
          })
          flags,
    )

    pub generation-apply_control :
        (e : DeckControlEvent F) (r : Renderer F) (flags : ℕ)
        → (apply_control fl chunks e r flags).0.generation ≡ r.generation
    unfolding apply_control
    generation-apply_control e r flags = ground (
      arith,
      generation-set_playing true r,
      generation-set_playing false r,
      generation-set_rate_immediate e.value r,
      generation-ramp_rate e.value e.ramp_frames r,
      generation-set_cue e.value r,
      generation-jump_to_cue r flags,
      generation-set_loop_start e.value r,
      generation-set_loop_end e.value r,
      generation-enable_loop r,
      generation-cue_button_down r flags,
      generation-cue_button_up r flags,
      generation-cue_button_hold r,
    )
