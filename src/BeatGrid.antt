-- ===== src/BeatGrid.antt =====
-- include/musicrat/dsp/beat_grid.hpp: from frames to beats and back, over the grid of
-- include/musicrat/protocol/transport.hpp. A mapper is its grid; `is_valid_grid` is computed again
-- where the class keeps it.
pub mod Bars
use music_ra_t.Common.{
  ℕ, ◌-◌, ◌/◌, ◌%◌, ◌^◌, List, [], ◌∷◌, Bool, true, false, ◌&&◌, ◌||◌, not, leb, ◌==◌,
  if◌then◌else◌, sub_u64,
}
use music_ra_t.Common.Floats.{Floats}

pub record BeatGridSegment (F : Type 0) : Type 0 where
  pub start_frame : ℕ
  pub start_beat : F
  pub tempo_bpm : F

-- The confidence and the flags are not read.
pub record BeatGrid (F : Type 0) : Type 0 where
  pub segments : List (BeatGridSegment F)
  pub sample_rate_hz : F
  pub beats_per_bar : ℕ
  pub beat_unit : ℕ

pub record BeatGridPosition (F : Type 0) : Type 0 where
  pub beat_position : F
  pub beat_fraction : F
  pub bar : ℕ
  pub beat_in_bar : ℕ
  pub valid : Bool

-- The loop of the two searches, with the segment selected so far: it stops at the first segment
-- that starts behind the position.
unfoldable pub last_started {ℓ} : {A : Type ℓ} → (A → Bool) → A → List A → A
last_started is_behind selected [] = selected
last_started is_behind selected (s ∷ ss) =
    let rest = last_started is_behind s ss in if is_behind s then selected else rest

module _ (fl : Floats) where
  open fl use {F, is_finite, lt, le, eq, add, sub, mul, div, of_ℕ, to_ℕ, floor, abs, nan, decimal}

  -- The frames of a beat at 1 beat a minute.
  abbrev frames_of_minute : BeatGrid F → F
  frames_of_minute g = mul (of_ℕ 60) g.sample_rate_hz

  unfoldable pub is_valid_segment : BeatGridSegment F → Bool
  is_valid_segment s = not (
      not (is_finite s.start_beat)
      || lt s.start_beat (of_ℕ 0)
      || not (is_finite s.tempo_bpm)
      || le s.tempo_bpm (of_ℕ 0))

  unfoldable pub follows_segment : BeatGrid F → BeatGridSegment F → BeatGridSegment F → Bool
  follows_segment g previous s =
      let expected_beat = add previous.start_beat (
        div (mul (of_ℕ (sub_u64 s.start_frame previous.start_frame)) previous.tempo_bpm)
          (frames_of_minute g)) in
      not (leb s.start_frame previous.start_frame || le s.start_beat previous.start_beat)
      && not (lt (decimal 1 6) (abs (sub expected_beat s.start_beat)))

  -- The loop of `validate` behind a segment.
  unfoldable pub valid_behind : BeatGrid F → BeatGridSegment F → List (BeatGridSegment F) → Bool
  unfolding is_valid_segment follows_segment
  valid_behind g previous [] = true
  valid_behind g previous (s ∷ ss) =
      is_valid_segment s && follows_segment g previous s && valid_behind g s ss

  -- The loop, from its first round on.
  unfoldable pub valid_segments : BeatGrid F → List (BeatGridSegment F) → Bool
  unfolding valid_behind
  valid_segments g [] = false
  valid_segments g (s ∷ ss) = is_valid_segment s && eq s.start_beat (of_ℕ 0) && valid_behind g s ss

  -- `validate`
  unfoldable pub is_valid_grid : BeatGrid F → Bool
  unfolding valid_segments
  is_valid_grid g =
      not (
        not (is_finite g.sample_rate_hz)
        || le g.sample_rate_hz (of_ℕ 0)
        || g.beats_per_bar == 0
        || g.beat_unit == 0)
      && valid_segments g g.segments

  abbrev no_segment : BeatGridSegment F
  no_segment = record { start_frame = 0; start_beat = of_ℕ 0; tempo_bpm = of_ℕ 120 }

  -- A valid grid has a first segment.
  unfoldable pub segment_where :
      (BeatGridSegment F → Bool) → List (BeatGridSegment F) → BeatGridSegment F
  unfolding last_started
  segment_where is_behind [] = no_segment
  segment_where is_behind (s ∷ ss) = last_started is_behind s ss

  unfoldable pub segment_for_frame : BeatGrid F → F → BeatGridSegment F
  unfolding segment_where
  segment_for_frame g media_frame =
      segment_where (λ s. lt media_frame (of_ℕ s.start_frame)) g.segments

  pub segment_for_beat : BeatGrid F → F → BeatGridSegment F
  unfolding segment_where
  segment_for_beat g beat_position = segment_where (λ s. lt beat_position s.start_beat) g.segments

  -- `BeatGridPosition{}`
  abbrev no_position : BeatGridPosition F
  no_position = record {
    beat_position = of_ℕ 0;
    beat_fraction = of_ℕ 0;
    bar = 0;
    beat_in_bar = 0;
    valid = false;
  }

  -- The test that the three methods begin with.
  unfoldable pub refuses : BeatGrid F → F → Bool
  refuses g x = not (is_valid_grid g) || not (is_finite x) || lt x (of_ℕ 0)

  unfoldable pub beat_at_frame : BeatGrid F → F → F
  beat_at_frame g media_frame =
      let s = segment_for_frame g media_frame in
      add s.start_beat
        (div (mul (sub media_frame (of_ℕ s.start_frame)) s.tempo_bpm) (frames_of_minute g))

  unfoldable pub position_at_frame : BeatGrid F → F → BeatGridPosition F
  unfolding refuses
  position_at_frame g media_frame =
      let beat = beat_at_frame g media_frame in
      let whole_beat = floor beat in
      if refuses g media_frame
      then no_position
      else if not (is_finite beat) || lt beat (of_ℕ 0)
      then no_position
      else record {
        beat_position = beat;
        beat_fraction = sub beat whole_beat;
        bar = to_ℕ whole_beat / g.beats_per_bar;
        beat_in_bar = to_ℕ whole_beat % g.beats_per_bar % 2 ^ 16;
        valid = true;
      }

  pub frame_at_beat : BeatGrid F → F → F
  unfolding refuses
  frame_at_beat g beat_position =
      let s = segment_for_beat g beat_position in
      if refuses g beat_position
      then nan
      else add (of_ℕ s.start_frame)
          (div (mul (mul (sub beat_position s.start_beat) (of_ℕ 60)) g.sample_rate_hz) s.tempo_bpm)

  pub tempo_at_frame : BeatGrid F → F → F
  unfolding refuses
  tempo_at_frame g media_frame =
      if refuses g media_frame then of_ℕ 0 else (segment_for_frame g media_frame).tempo_bpm
