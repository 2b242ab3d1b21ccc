-- ===== src/Varispeed/Controls/Consistent.antt =====
-- A deck control keeps what the members of a renderer have in common.
use music_ra_t.Common.{
  ℕ, ◌≡◌, refl, inl, inr, Bool, true, false, ◌&&◌, arith, Bool-cases, ◌==◌, ltb, List,
}
use music_ra_t.Common.Floats.{Floats}
use music_ra_t.Protocol.{DeckControlEvent}
use music_ra_t.Varispeed.{Renderer, valid_rate}
use music_ra_t.Varispeed.Chunks.{Chunk, find_chunk, range_is_resident}
use music_ra_t.Varispeed.Controls.{
  valid_frame_position, set_cue, press_at, cue_button_hold, set_loop_start, set_loop_end,
  wrap_loop_position, return_to_cue, jump_to_cue, cue_button_down, cue_button_up, enable_loop,
  apply_control, is_found, is_yes,
}
use music_ra_t.Varispeed.Consistent.{
  IsLoop, IsCue, IsConsistent, set_playing-IsConsistent, set_rate_immediate-IsConsistent,
  ramp_rate-IsConsistent,
}

module _ (fl : Floats) where
  open fl use {F, of_ℕ, to_ℕ, round}

  set_cue-IsConsistent :
      (x : F) (r : Renderer F) → IsConsistent fl r → IsConsistent fl (set_cue fl x r)
  unfolding set_cue valid_rate
  set_cue-IsConsistent x r c = elim (Bool-cases (valid_frame_position fl x)) [
    | inl t ↦ rw t (record { loop = c.loop; cue = c.cue; rate = c.rate })
    | inr t ↦ rw t c
  ]

  press_at-IsConsistent :
      (frame : ℕ) (r : Renderer F) → IsConsistent fl r → IsConsistent fl (press_at fl frame r)
  unfolding press_at valid_rate
  press_at-IsConsistent frame r c = elim (Bool-cases (r.cue_set && frame == r.cue_frame)) [
    | inl t ↦ rw t (record { loop = c.loop; cue = held; rate = c.rate })
    | inr t ↦ rw t (record { loop = c.loop; cue = held; rate = c.rate })
  ]
    where
      held : {preview : Bool} → IsCue preview true false r.cue_seek_requested r.cue_seek_in_flight
      held = record {
        preview_held = λ e. refl;
        one = λ e. refl;
        pending_held = λ e. refl;
        seeks = c.cue.seeks;
      }

  cue_button_hold-IsConsistent :
      (r : Renderer F) → IsConsistent fl r → IsConsistent fl (cue_button_hold fl r)
  unfolding cue_button_hold valid_rate
  cue_button_hold-IsConsistent r c =
      elim (Bool-cases (r.cue_button_held && r.cue_hold_pending && r.cue_set)) [
        | inr t ↦ rw t c
        | inl t ↦ rw t (record {
          loop = c.loop;
          cue = record {
            preview_held = λ e. ground (arith, t);
            one = λ e. refl;
            pending_held = λ e. absurd cc;
            seeks = c.cue.seeks;
          };
          rate = c.rate;
        })
      ]

  off :
      {start end_ : ℕ} {start_set end_set : Bool}
      → (end_set ≡ false → end_ ≡ 0)
      → IsLoop start end_ start_set end_set false
  off u = record { order = λ e. absurd cc; starts = λ e. absurd cc; unset = u }

  set_loop_start-IsConsistent :
      (x : F) (r : Renderer F) → IsConsistent fl r → IsConsistent fl (set_loop_start fl x r)
  unfolding set_loop_start valid_rate
  set_loop_start-IsConsistent x r c = elim (Bool-cases (valid_frame_position fl x)) [
    | inl t ↦ rw t (record { loop = off c.loop.unset; cue = c.cue; rate = c.rate })
    | inr t ↦ rw t c
  ]

  set_loop_end-IsConsistent :
      (x : F) (r : Renderer F) → IsConsistent fl r → IsConsistent fl (set_loop_end fl x r)
  unfolding set_loop_end valid_rate
  set_loop_end-IsConsistent x r c = elim (Bool-cases (valid_frame_position fl x)) [
    | inl t ↦ rw t (record { loop = off (λ e. absurd cc); cue = c.cue; rate = c.rate })
    | inr t ↦ rw t c
  ]

  pub wrap_loop_position-IsConsistent :
      (r : Renderer F) (flags : ℕ)
      → IsConsistent fl r
      → IsConsistent fl (wrap_loop_position fl r flags).0
  unfolding wrap_loop_position valid_rate
  wrap_loop_position-IsConsistent r flags c = record {
    loop = ground (arith, c.loop);
    cue = ground (arith, c.cue);
    rate = ground (arith, c.rate);
  }

  module _ (chunks : List (Chunk F)) where
    return_to_cue-IsConsistent :
        (r : Renderer F) (flags : ℕ)
        → IsConsistent fl r
        → IsConsistent fl (return_to_cue fl chunks r flags).0
    unfolding return_to_cue valid_rate
    return_to_cue-IsConsistent r flags c =
        elim (Bool-cases (is_found (find_chunk chunks r.cue_frame))) [
          | inl t ↦ rw t (record { loop = c.loop; cue = c.cue; rate = c.rate })
          | inr t ↦ rw t (record {
            loop = c.loop;
            cue = record {
              preview_held = c.cue.preview_held;
              one = c.cue.one;
              pending_held = c.cue.pending_held;
              seeks = λ e. refl;
            };
            rate = c.rate;
          })
        ]

    jump_to_cue-IsConsistent :
        (r : Renderer F) (flags : ℕ)
        → IsConsistent fl r
        → IsConsistent fl (jump_to_cue fl chunks r flags).0
    unfolding jump_to_cue valid_rate
    jump_to_cue-IsConsistent r flags c =
        elim (Bool-cases (r.cue_set && is_found (find_chunk chunks r.cue_frame))) [
          | inl t ↦ rw t (record { loop = c.loop; cue = c.cue; rate = c.rate })
          | inr t ↦ rw t c
        ]

    cue_button_down-IsConsistent :
        (r : Renderer F) (flags : ℕ)
        → IsConsistent fl r
        → IsConsistent fl (cue_button_down fl chunks r flags).0
    unfolding cue_button_down valid_rate
    cue_button_down-IsConsistent r flags c = ground (
      arith,
      c,
      return_to_cue-IsConsistent _ flags pressed,
      waiting,
      press_at-IsConsistent (to_ℕ (round r.media_position)) r c,
    )
      where
        pressed : IsConsistent fl (record r {
          playing = false;
          cue_preview_active = false;
          cue_button_held = true;
          cue_hold_pending = true;
        })
        pressed = record {
          loop = c.loop;
          cue = record {
            preview_held = λ e. refl;
            one = λ e. absurd cc;
            pending_held = λ e. refl;
            seeks = c.cue.seeks;
          };
          rate = c.rate;
        }

        waiting : IsConsistent fl (record r {
          cue_button_held = true;
          cue_hold_pending = false;
          cue_preview_active = true;
        })
        waiting = record {
          loop = c.loop;
          cue = record {
            preview_held = λ e. refl;
            one = λ e. refl;
            pending_held = λ e. refl;
            seeks = c.cue.seeks;
          };
          rate = c.rate;
        }

    cue_button_up-IsConsistent :
        (r : Renderer F) (flags : ℕ)
        → IsConsistent fl r
        → IsConsistent fl (cue_button_up fl chunks r flags).0
    unfolding cue_button_up valid_rate
    cue_button_up-IsConsistent r flags c = elim (Bool-cases r.cue_preview_active) [
      | inl t ↦ ground (arith, t, return_to_cue-IsConsistent _ flags stopped, stopped)
      | inr t ↦ ground (arith, t, let_go t)
    ]
      where
        idle :
            {preview : Bool}
            → preview ≡ false
            → IsCue preview false false r.cue_seek_requested r.cue_seek_in_flight
        idle n = record {
          preview_held = λ e. absurd cc;
          one = λ e. refl;
          pending_held = λ e. absurd cc;
          seeks = c.cue.seeks;
        }

        stopped : IsConsistent fl (record r {
          cue_button_held = false;
          cue_hold_pending = false;
          playing = false;
          cue_preview_active = false;
        })
        stopped = record { loop = c.loop; cue = idle refl; rate = c.rate }

        let_go :
            r.cue_preview_active ≡ false
            → IsConsistent fl (record r { cue_button_held = false; cue_hold_pending = false })
        let_go t = record { loop = c.loop; cue = idle t; rate = c.rate }

    enable_loop-IsConsistent :
        (r : Renderer F) → IsConsistent fl r → IsConsistent fl (enable_loop fl chunks r)
    unfolding enable_loop valid_rate
    enable_loop-IsConsistent r c =
        elim (Bool-cases (
          ltb r.loop_start_frame r.loop_end_frame
          && is_yes (range_is_resident r.loop_start_frame r.loop_end_frame chunks))) [
            | inl t ↦ rw t (record {
              loop = record {
                order = λ e. ground (arith, t);
                starts = λ e. refl;
                unset = c.loop.unset;
              };
              cue = c.cue;
              rate = c.rate;
            })
            | inr t ↦ rw t (record { loop = off c.loop.unset; cue = c.cue; rate = c.rate })
          ]

    pub apply_control-IsConsistent :
        (e : DeckControlEvent F) (r : Renderer F) (flags : ℕ)
        → IsConsistent fl r
        → IsConsistent fl (apply_control fl chunks e r flags).0
    unfolding apply_control valid_rate
    apply_control-IsConsistent e r flags c = ground (
      arith,
      c,
      set_playing-IsConsistent fl true r c,
      set_playing-IsConsistent fl false r c,
      set_rate_immediate-IsConsistent fl e.value r c,
      ramp_rate-IsConsistent fl e.value e.ramp_frames r c,
      set_cue-IsConsistent e.value r c,
      jump_to_cue-IsConsistent r flags c,
      cue_cleared,
      set_loop_start-IsConsistent e.value r c,
      set_loop_end-IsConsistent e.value r c,
      enable_loop-IsConsistent r c,
      loop_cleared,
      cue_button_down-IsConsistent r flags c,
      cue_button_up-IsConsistent r flags c,
      cue_button_hold-IsConsistent r c,
    )
      where
        cue_cleared : IsConsistent fl (record r { cue_set = false })
        cue_cleared = record { loop = c.loop; cue = c.cue; rate = c.rate }

        loop_cleared : IsConsistent fl (record r { loop_enabled = false })
        loop_cleared = record { loop = off c.loop.unset; cue = c.cue; rate = c.rate }
