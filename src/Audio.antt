-- ===== src/Audio.antt =====
-- Audio blocks: include/musicrat/protocol/audio_block.hpp and
-- include/musicrat/utility/audio_block.hpp. MAX_CHANNELS and MAX_FRAMES are set by the build, and
-- are arguments here. A channel is the list of its samples.
pub mod Valid
use music_ra_t.Common.{
  ℕ, zero, suc, List, [], ◌∷◌, Bool, true, false, not, ◌||◌, map, length, ltb, ◌==◌, if◌then◌else◌,
  set_flag,
}
use music_ra_t.Common.Floats.{Floats}

pub record AudioBlock (F : Type 0) : Type 0 where
  pub channels : List (List F)
  pub sample_rate_hz : F
  pub timestamp_ns : ℕ
  pub sequence_number : ℕ
  pub frame_count : ℕ
  pub channel_count : ℕ
  pub flags : ℕ

-- The bit positions of `AudioBlockFlag`.
abbrev pub audio_block_silence : ℕ
audio_block_silence = 0

abbrev pub audio_block_end_of_stream : ℕ
audio_block_end_of_stream = 1

abbrev pub audio_block_underrun : ℕ
audio_block_underrun = 2

abbrev pub audio_block_discontinuity : ℕ
audio_block_discontinuity = 3

abbrev pub audio_block_invalid : ℕ
audio_block_invalid = 4

pub data AudioBlockValidationError : Type 0 where
  no_error invalid_sample_rate too_many_channels too_many_frames : AudioBlockValidationError
  active_channel_size_mismatch inactive_channel_not_empty : AudioBlockValidationError

abbrev pub is_empty {ℓ} : {A : Type ℓ} → List A → Bool
is_empty [] = true
is_empty (x ∷ xs) = false

-- The loop over the channels below `channel_count`.
unfoldable pub active_mismatch : {F : Type 0} → ℕ → ℕ → List (List F) → Bool
active_mismatch zero frame_count cs = false
active_mismatch (suc n) frame_count [] = false
active_mismatch (suc n) frame_count (c ∷ cs) =
    not (length c == frame_count) || active_mismatch n frame_count cs

-- The loop over the channels from `channel_count` on.
unfoldable pub inactive_not_empty : {F : Type 0} → ℕ → List (List F) → Bool
inactive_not_empty n [] = false
inactive_not_empty zero (c ∷ cs) = not (is_empty c) || inactive_not_empty zero cs
inactive_not_empty (suc n) (c ∷ cs) = inactive_not_empty n cs

module _ (fl : Floats) (max_channels max_frames : ℕ) where
  open fl use {F}

  unfoldable pub validate_audio_block : AudioBlock F → AudioBlockValidationError
  validate_audio_block b =
      if not (fl.is_finite b.sample_rate_hz) || fl.le b.sample_rate_hz (fl.of_ℕ 0)
      then AudioBlockValidationError.invalid_sample_rate
      else if ltb max_channels b.channel_count
      then AudioBlockValidationError.too_many_channels
      else if ltb max_frames b.frame_count
      then AudioBlockValidationError.too_many_frames
      else if active_mismatch b.channel_count b.frame_count b.channels
      then AudioBlockValidationError.active_channel_size_mismatch
      else if inactive_not_empty b.channel_count b.channels
      then AudioBlockValidationError.inactive_channel_not_empty
      else AudioBlockValidationError.no_error

module _ {F : Type 0} where
  unfoldable pub clear_audio_channels : AudioBlock F → AudioBlock F
  clear_audio_channels b = record b { channels = map (λ c. []) b.channels }

  -- The metadata of `input`, over the channels of `output`.
  unfoldable copy_audio_metadata : AudioBlock F → AudioBlock F → AudioBlock F
  copy_audio_metadata input output = record input { channels = output.channels }

  unfoldable pub mark_invalid_audio_block : AudioBlock F → AudioBlock F
  unfolding clear_audio_channels
  mark_invalid_audio_block b =
      let c = clear_audio_channels b in
      record c { frame_count = 0; channel_count = 0; flags = set_flag c.flags audio_block_invalid }
