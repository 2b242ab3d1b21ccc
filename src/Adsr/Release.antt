-- ===== src/Adsr/Release.antt =====
-- A released envelope ends.
use music_ra_t.Common.{ℕ, zero, suc, ◌^◌, ◌<◌, ◌≡◌, ◌⊎◌}
use music_ra_t.Common.Floats.{Floats}
use music_ra_t.Adsr.{Stage, AdsrEnvelope, next}

module _ (fl : Floats) where
  open fl use {F, of_ℕ, le}

  -- After `n` frames.
  pub run : ℕ → AdsrEnvelope F → AdsrEnvelope F
  run zero e = e
  run (suc n) e = run n (next fl e).1

  pub record IsEnded (e : AdsrEnvelope F) : Type 0 where
    pub stage : e.stage ≡ Stage.idle
    pub level : e.level ≡ of_ℕ 0

  abbrev IsReleased : AdsrEnvelope F → Type 0
  IsReleased t =
      (IsEnded t × (t.stage_frames ≡ 0))
      ⊎ ((t.stage ≡ Stage.release)
          × (t.stage_frame ≡ 0)
          × (0 < t.stage_frames)
          × (t.stage_frames < 2 ^ 32))
