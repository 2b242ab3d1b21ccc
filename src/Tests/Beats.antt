-- ===== src/Tests/Beats.antt =====
-- A grid of 60 beats a minute over a track of one frame a second.
use music_ra_t.Common.{◌+◌, ◌*◌, ◌<◌, ◌≡◌, refl, [], ◌∷◌, arith}
use music_ra_t.Common.Int.{ℤ, pos, pos_part}
use music_ra_t.Common.Floats.{integers}
use music_ra_t.BeatGrid.{
  BeatGrid, position_at_frame, refuses, is_valid_grid, valid_segments, valid_behind,
  is_valid_segment, follows_segment, beat_at_frame, segment_for_frame, segment_where, last_started,
}
use music_ra_t.BeatGrid.Bars.{position_at_frame_lem}

abbrev seconds : BeatGrid ℤ
seconds = record {
  segments = (record { start_frame = 0; start_beat = pos 0; tempo_bpm = pos 60 }) ∷ [];
  sample_rate_hz = pos 1;
  beats_per_bar = 4;
  beat_unit = 4;
}

position_at_frame_lem_example :
    let p = position_at_frame integers seconds (pos 6) in
    (p.bar * 4 + p.beat_in_bar ≡ pos_part p.beat_position) × (p.beat_in_bar < 4)
unfolding position_at_frame refuses is_valid_grid valid_segments valid_behind is_valid_segment
    follows_segment beat_at_frame segment_for_frame segment_where last_started
position_at_frame_lem_example = position_at_frame_lem integers seconds (pos 6) (omega arith) refl
