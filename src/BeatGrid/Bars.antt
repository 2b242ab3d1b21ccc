-- ===== src/BeatGrid/Bars.antt =====
-- Bars and beats of a position.
use native.Mathlib.Nat.{div-add-mod', mod-lt}
use music_ra_t.Common.{ℕ, ◌+◌, ◌*◌, ◌/◌, ◌%◌, ◌^◌, ◌<◌, ◌≡◌, true, arith}
use music_ra_t.Common.Floats.{Floats}
use music_ra_t.BeatGrid.{BeatGrid, position_at_frame, is_valid_grid, refuses, beat_at_frame}

as_u16 : (r m : ℕ) → r < m → m < 2 ^ 16 → r % 2 ^ 16 ≡ r
as_u16 r m h b = omega arith

-- Division into bars of `m` beats.
bars_of : (n m : ℕ) → 0 < m → m < 2 ^ 16 → ((n / m) * m + n % m % 2 ^ 16 ≡ n) × (n % m % 2 ^ 16 < m)
bars_of n m p b =
    let e = as_u16 (n % m) m (mod-lt n p) b in (rw e (div-add-mod' n m), rw e (mod-lt n p))

module _ (fl : Floats) where
  open fl use {F, to_ℕ, floor}

  -- A position that is valid counts its whole beats in bars: fewer beats than a bar has, behind the
  -- beats of the bars before, if a bar has fewer than 2^16 beats.
  pub position_at_frame_lem :
      (g : BeatGrid F) (x : F)
      → g.beats_per_bar < 2 ^ 16
      → (position_at_frame fl g x).valid ≡ true
      → let p = position_at_frame fl g x in
        (p.bar * g.beats_per_bar + p.beat_in_bar ≡ to_ℕ (floor p.beat_position))
        × (p.beat_in_bar < g.beats_per_bar)
  unfolding position_at_frame refuses is_valid_grid
  position_at_frame_lem g x b v =
      ground (arith, v, bars_of (to_ℕ (floor (beat_at_frame fl g x))) g.beats_per_bar, b)
