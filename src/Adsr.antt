-- ===== src/Adsr.antt =====
-- include/musicrat/dsp/adsr_envelope.hpp: an envelope as a state machine. The calls of
-- `update_stage_target` and `advance_stage` to each other are unrolled: an attack of no frames enters
-- the decay, a decay of no frames the sustain.
pub mod Release
use music_ra_t.Common.{
  ℕ, suc, ◌%◌, ◌^◌, Bool, true, false, ◌||◌, not, leb, ◌==◌, if◌then◌else◌, add_u32,
}
use music_ra_t.Common.Floats.{Floats, min_f, max_f}

pub record AdsrParameters (F : Type 0) : Type 0 where
  pub attack_ms : F
  pub decay_ms : F
  pub sustain_level : F
  pub release_ms : F

pub data Stage : Type 0 where
  idle attack decay sustain release : Stage

pub record AdsrEnvelope (F : Type 0) : Type 0 where
  pub parameters : AdsrParameters F
  pub sample_rate_hz : F
  pub peak : F
  pub level : F
  pub stage_start : F
  pub stage_target : F
  pub stage_frame : ℕ
  pub stage_frames : ℕ
  pub stage : Stage

abbrev pub is_sounding : Stage → Bool
is_sounding idle = false
is_sounding _ = true

-- `active`
abbrev pub is_active : {F : Type 0} → AdsrEnvelope F → Bool
is_active e = is_sounding e.stage

module _ (fl : Floats) where
  open fl use {F, of_ℕ, to_ℕ, add, sub, mul, div, round, le}

  -- An envelope as the initialisers of its members make it.
  pub new_envelope : AdsrEnvelope F
  new_envelope = record {
    parameters = record {
      attack_ms = of_ℕ 5;
      decay_ms = of_ℕ 0;
      sustain_level = of_ℕ 1;
      release_ms = of_ℕ 5;
    };
    sample_rate_hz = of_ℕ 48000;
    peak = of_ℕ 1;
    level = of_ℕ 0;
    stage_start = of_ℕ 0;
    stage_target = of_ℕ 0;
    stage_frame = 0;
    stage_frames = 0;
    stage = Stage.idle;
  }

  -- `frames`
  pub stage_length : AdsrEnvelope F → F → ℕ
  stage_length e milliseconds =
      to_ℕ (max_f fl (of_ℕ 0) (round (div (mul milliseconds e.sample_rate_hz) (of_ℕ 1000))))
      % 2 ^ 32

  pub finish : AdsrEnvelope F → AdsrEnvelope F
  finish e = record e { stage = Stage.idle; level = of_ℕ 0; stage_frame = 0; stage_frames = 0 }

  pub enter_sustain : AdsrEnvelope F → AdsrEnvelope F
  enter_sustain e = record e {
    stage = Stage.sustain;
    level = mul e.peak e.parameters.sustain_level;
  }

  -- The stage of an envelope with its start, target and length.
  with_target : AdsrEnvelope F → F → F → AdsrEnvelope F
  unfolding stage_length
  with_target e target milliseconds = record e {
    stage_frame = 0;
    stage_start = e.level;
    stage_target = target;
    stage_frames = stage_length e milliseconds;
  }

  -- `update_stage_target` in the decay, with the `advance_stage` that may follow.
  enter_decay : AdsrEnvelope F → AdsrEnvelope F
  unfolding with_target enter_sustain
  enter_decay e =
      let t = with_target e (mul e.peak e.parameters.sustain_level) e.parameters.decay_ms in
      if t.stage_frames == 0 then enter_sustain (record t { level = t.stage_target }) else t

  pub advance_stage : AdsrEnvelope F → AdsrEnvelope F
  unfolding enter_decay enter_sustain finish
  advance_stage e = elim e.stage [
    | idle ↦ e
    | attack ↦ enter_decay (record e { stage = Stage.decay })
    | decay ↦ enter_sustain e
    | sustain ↦ e
    | release ↦ finish e
  ]

  -- `update_stage_target` in the attack, where `start_envelope` calls it.
  enter_attack : AdsrEnvelope F → AdsrEnvelope F
  unfolding with_target advance_stage
  enter_attack e =
      let t = with_target e e.peak e.parameters.attack_ms in
      if t.stage_frames == 0 then advance_stage (record t { level = t.stage_target }) else t

  pub start_envelope : AdsrParameters F → F → F → AdsrEnvelope F → AdsrEnvelope F
  unfolding enter_attack
  start_envelope parameters sample_rate_hz peak e = enter_attack (record e {
    parameters = parameters;
    sample_rate_hz = sample_rate_hz;
    peak = peak;
    level = of_ℕ 0;
    stage = Stage.attack;
    stage_frame = 0;
  })

  abbrev pub is_over : Stage → Bool
  is_over idle = true
  is_over release = true
  is_over _ = false

  pub release_envelope : AdsrEnvelope F → AdsrEnvelope F
  unfolding with_target finish
  release_envelope e =
      let t = with_target (record e { stage = Stage.release }) (of_ℕ 0) e.parameters.release_ms in
      if is_over e.stage
      then e
      else if t.stage_frames == 0 || le t.stage_start (of_ℕ 0)
      then finish t
      else t

  pub advance_ramp : AdsrEnvelope F → AdsrEnvelope F
  unfolding advance_stage
  advance_ramp e =
      let frame = add_u32 e.stage_frame 1 in
      let progress = min_f fl (of_ℕ 1) (div (of_ℕ frame) (of_ℕ e.stage_frames)) in
      let t : AdsrEnvelope F = record e {
        stage_frame = frame;
        level = add e.stage_start (mul (sub e.stage_target e.stage_start) progress);
      } in
      if leb t.stage_frames t.stage_frame then advance_stage t else t

  -- The level, and the envelope a frame later.
  pub next : AdsrEnvelope F → F × AdsrEnvelope F
  unfolding advance_ramp
  next e = elim e.stage [
    | idle ↦ (e.level, e)
    | attack ↦ (e.level, advance_ramp e)
    | decay ↦ (e.level, advance_ramp e)
    | sustain ↦ (e.level, e)
    | release ↦ (e.level, advance_ramp e)
  ]
