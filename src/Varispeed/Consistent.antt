-- ===== src/Varispeed/Consistent.antt =====
-- What the members of a renderer have in common whatever was called, for the calls of Varispeed.
use music_ra_t.Common.{ℕ, ◌<◌, ◌≡◌, refl, inl, inr, Bool, true, false, arith, Bool-cases, ◌==◌}
use music_ra_t.Common.Floats.{Floats}
use music_ra_t.Varispeed.{
  Renderer, new_renderer, prepare, take_seek_request, clear_track_controls, valid_rate,
  set_rate_immediate, ramp_rate, set_playing,
}

-- An enabled loop is not empty and has its start set; an end that is not set is 0.
pub record IsLoop (start end_ : ℕ) (start_set end_set enabled : Bool) : Type 0 where
  pub order : enabled ≡ true → start < end_
  pub starts : enabled ≡ true → start_set ≡ true
  pub unset : end_set ≡ false → end_ ≡ 0

-- A preview and a pending hold, of which there is one at most, need the button held; a seek that
-- is requested is in flight.
pub record IsCue (preview held pending requested in_flight : Bool) : Type 0 where
  pub preview_held : preview ≡ true → held ≡ true
  pub one : preview ≡ true → pending ≡ false
  pub pending_held : pending ≡ true → held ≡ true
  pub seeks : requested ≡ true → in_flight ≡ true

-- The rate that is aimed at is valid, and is the current one outside of a ramp.
pub record IsRate {F : Type 0} (valid : Bool) (frames : ℕ) (current target : F) : Type 0 where
  pub target_valid : valid ≡ true
  pub settled : frames ≡ 0 → current ≡ target

abbrev pub IsLoopOf : {F : Type 0} → Renderer F → Type 0
IsLoopOf r =
    IsLoop r.loop_start_frame r.loop_end_frame r.loop_start_set r.loop_end_set r.loop_enabled

abbrev pub IsCueOf : {F : Type 0} → Renderer F → Type 0
IsCueOf r =
    IsCue r.cue_preview_active r.cue_button_held r.cue_hold_pending r.cue_seek_requested
      r.cue_seek_in_flight

no-IsLoop :
    {start end_ : ℕ} {start_set end_set : Bool}
    → (end_set ≡ false → end_ ≡ 0)
    → IsLoop start end_ start_set end_set false
no-IsLoop u = record { order = λ e. absurd cc; starts = λ e. absurd cc; unset = u }

no-IsCue : {in_flight : Bool} → IsCue false false false false in_flight
no-IsCue = record {
  preview_held = λ e. absurd cc;
  one = λ e. refl;
  pending_held = λ e. absurd cc;
  seeks = λ e. absurd cc;
}

module _ (fl : Floats) where
  open fl use {F, of_ℕ}

  abbrev pub IsRateOf : Renderer F → Type 0
  IsRateOf r =
      IsRate (valid_rate fl r r.target_rate) r.rate_ramp_frames r.current_rate r.target_rate

  pub record IsConsistent (r : Renderer F) : Type 0 where
    pub loop : IsLoopOf r
    pub cue : IsCueOf r
    pub rate : IsRateOf r

  pub new_renderer-IsConsistent :
      valid_rate fl (new_renderer fl) (of_ℕ 1) ≡ true → IsConsistent (new_renderer fl)
  unfolding new_renderer
  new_renderer-IsConsistent h = record {
    loop = no-IsLoop (λ e. refl);
    cue = no-IsCue;
    rate = record { target_valid = h; settled = λ e. refl };
  }

  pub prepare-IsConsistent :
      (generation : ℕ) (x : F) (r : Renderer F)
      → IsConsistent r
      → IsConsistent (prepare fl generation x r)
  unfolding prepare valid_rate
  prepare-IsConsistent generation x r c = record {
    loop = record {
      order = λ e. ground arith;
      starts = λ e. ground arith;
      unset = λ e. ground (arith, c.loop.unset);
    };
    cue = record {
      preview_held = λ e. ground (arith, c.cue.preview_held);
      one = λ e. ground (arith, c.cue.one);
      pending_held = λ e. ground (arith, c.cue.pending_held);
      seeks = λ e. ground arith;
    };
    rate = record {
      target_valid = ground (arith, c.rate.target_valid);
      settled = λ e. ground (arith, c.rate.settled);
    };
  }

  pub clear_track_controls-IsConsistent :
      (r : Renderer F) → IsConsistent r → IsConsistent (clear_track_controls fl r)
  unfolding clear_track_controls valid_rate
  clear_track_controls-IsConsistent r c = record {
    loop = no-IsLoop (λ e. refl);
    cue = no-IsCue;
    rate = c.rate;
  }

  taken-IsConsistent :
      (r : Renderer F) → IsConsistent r → IsConsistent (record r { cue_seek_requested = false })
  unfolding valid_rate
  taken-IsConsistent r c = record {
    loop = c.loop;
    cue = record {
      preview_held = c.cue.preview_held;
      one = c.cue.one;
      pending_held = c.cue.pending_held;
      seeks = λ e. absurd cc;
    };
    rate = c.rate;
  }

  pub take_seek_request-IsConsistent :
      (r : Renderer F) → IsConsistent r → IsConsistent (take_seek_request fl r).1
  unfolding take_seek_request valid_rate
  take_seek_request-IsConsistent r c = ground (arith, c, taken-IsConsistent r c)

  pub set_playing-IsConsistent :
      (b : Bool) (r : Renderer F) → IsConsistent r → IsConsistent (set_playing fl b r)
  unfolding set_playing valid_rate
  set_playing-IsConsistent b r c = record { loop = c.loop; cue = c.cue; rate = c.rate }

  -- A rate that is refused changes nothing.
  pub set_rate_immediate-IsConsistent :
      (x : F) (r : Renderer F) → IsConsistent r → IsConsistent (set_rate_immediate fl x r).1
  unfolding set_rate_immediate valid_rate
  set_rate_immediate-IsConsistent x r c = elim (Bool-cases (valid_rate fl r x)) [
    | inr t ↦ rw t c
    | inl t ↦ rw t (record {
      loop = c.loop;
      cue = c.cue;
      rate = record { target_valid = t; settled = λ e. refl };
    })
  ]

  pub ramp_rate-IsConsistent :
      (x : F) (n : ℕ) (r : Renderer F) → IsConsistent r → IsConsistent (ramp_rate fl x n r).1
  unfolding ramp_rate valid_rate
  ramp_rate-IsConsistent x n r c = elim (Bool-cases (valid_rate fl r x)) [
    | inr t ↦ rw t c
    | inl t ↦ elim (Bool-cases (n == 0)) [
      | inl z ↦
          rw (t, z)
            (record {
              loop = c.loop;
              cue = c.cue;
              rate = record { target_valid = t; settled = λ e. refl };
            })
      | inr z ↦
          rw (t, z)
            (record {
              loop = c.loop;
              cue = c.cue;
              rate = record { target_valid = t; settled = λ e. absurd (ground (arith, z, e)) };
            })
    ]
  ]
