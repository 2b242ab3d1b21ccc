-- ===== src/Varispeed/Frames.antt =====
-- One frame of the output: a silent one, or one read between two frames of the source. A sample
-- outside of a channel is 0; a valid request reads none.
pub mod Sizes
use music_ra_t.Common.{
  ℕ, zero, suc, ◌+◌, ◌-◌, ◌%◌, ◌^◌, List, [], ◌∷◌, ◌++◌, map, Bool, true, false, ◌&&◌, ◌||◌, not,
  Option, none, some, length, get_elem?, set, ltb, leb, ◌==◌, if◌then◌else◌, add_u64, sub_u64,
  add_u32, has_flag, set_flag,
}
use music_ra_t.Common.Floats.{Floats}
use music_ra_t.Audio.{
  AudioBlock, clear_audio_channels, mark_invalid_audio_block, audio_block_silence,
  audio_block_end_of_stream, audio_block_underrun, audio_block_discontinuity,
}
use music_ra_t.Protocol.{Block, DeckControlEvent}
use music_ra_t.Varispeed.{Renderer}
use music_ra_t.Varispeed.Chunks.{
  View, Chunk, find_chunk, valid_request, front_audio, find_final_end, chunk_end,
}

abbrev option_or {ℓ} : {A : Type ℓ} → Option A → A → A
option_or none d = d
option_or (some a) d = a

module _ {F : Type 0} where
  -- `push_back` on each channel from `i` below `n`.
  pub append_frame : (ℕ → F) → ℕ → ℕ → List (List F) → List (List F)
  append_frame sample n i [] = []
  append_frame sample n i (c ∷ cs) =
      (if ltb i n then c ++ sample i ∷ [] else c) ∷ append_frame sample n (suc i) cs

module _ (fl : Floats) where
  open fl use {F, eq, le, lt, add, sub, mul, div, of_ℕ, to_ℕ, narrow}

  pub initialize_output : Option (AudioBlock F) → F → ℕ → ℕ → ℕ → AudioBlock F → AudioBlock F
  unfolding clear_audio_channels
  initialize_output source rate frames timestamp_ns sequence_number output = record {
    channels = (clear_audio_channels output).channels;
    sample_rate_hz = rate;
    timestamp_ns = timestamp_ns;
    sequence_number = sequence_number;
    frame_count = frames;
    channel_count = elim source [ none ↦ 0 | some b ↦ b.channel_count ];
    flags = 0;
  }

  pub append_silent_frame : AudioBlock F → AudioBlock F
  append_silent_frame o = record o {
    channels = append_frame (λ i. of_ℕ 0) o.channel_count 0 o.channels;
  }

  pub fill_silence : ℕ → AudioBlock F → AudioBlock F
  fill_silence zero o = o
  fill_silence (suc n) o = fill_silence n (append_silent_frame o)

  -- `fill_rates`
  unfoldable pub fill_rates : List F → ℕ → F → List F
  fill_rates [] n rate = []
  fill_rates (x ∷ xs) zero rate = x ∷ xs
  fill_rates (x ∷ xs) (suc n) rate = rate ∷ fill_rates xs n rate

  unfoldable pub next_rate : Renderer F → Renderer F
  next_rate r =
      if ltb 0 r.rate_ramp_frames
      then record r {
        rate_ramp_frames = r.rate_ramp_frames - 1;
        current_rate =
            if r.rate_ramp_frames == 1 then r.target_rate else add r.current_rate r.rate_increment;
      }
      else r

  pub sample_at : AudioBlock F → ℕ → ℕ → F
  sample_at b channel index =
      option_or (get_elem? (option_or (get_elem? b.channels channel) []) index) (of_ℕ 0)

  abbrev index_in : Chunk F → ℕ → ℕ
  index_in c frame = sub_u64 frame c.start_frame % 2 ^ 32

  -- The samples of a frame between two frames; `append_frame` reads those of the active channels.
  pub interpolated : Chunk F → ℕ → Chunk F → ℕ → F → ℕ → F
  interpolated c first d second fraction channel =
      let a = sample_at c.audio channel first in
      let b = sample_at d.audio channel second in narrow (add a (mul (sub b a) fraction))

  -- `clamp_final_sample`
  pub clamp_final_sample : F → ℕ → Chunk F → Bool
  clamp_final_sample fraction frame c =
      not (eq fraction (of_ℕ 0))
      && add_u64 frame 1 == chunk_end c
      && has_flag c.audio.flags audio_block_end_of_stream

  pub second_frame : Renderer F → ℕ → ℕ
  second_frame r frame =
      if r.loop_enabled && leb r.loop_end_frame (add_u64 frame 1)
      then r.loop_start_frame
      else add_u64 frame 1

  -- The two chunks of `sample_frame`, once the first is found, with the index of the second.
  second_sample : List (Chunk F) → Renderer F → F → ℕ → Chunk F → Option (Chunk F × ℕ)
  second_sample chunks r fraction frame c =
      if eq fraction (of_ℕ 0) || clamp_final_sample fraction frame c
      then some (c, index_in c frame)
      else elim (find_chunk chunks (second_frame r frame)) [
        | none ↦ none
        | some d ↦ some (d, index_in d (second_frame r frame))
      ]

  with_second : ℕ → F → Chunk F → Option (Chunk F × ℕ) → AudioBlock F → Option (AudioBlock F)
  with_second frame fraction c none o = none
  with_second frame fraction c (some (d, second)) o = some (record o {
    channels =
        append_frame (interpolated c (index_in c frame) d second fraction) c.audio.channel_count 0
          o.channels;
  })

  with_first :
      List (Chunk F) → Renderer F → ℕ → Option (Chunk F) → AudioBlock F → Option (AudioBlock F)
  unfolding with_second second_sample
  with_first chunks r frame none o = none
  with_first chunks r frame (some c) o =
      let fraction = sub r.media_position (of_ℕ frame) in
      with_second frame fraction c (second_sample chunks r fraction frame c) o

  -- The output with one more frame, if the frame can be read.
  pub sample_frame : List (Chunk F) → Renderer F → AudioBlock F → Option (AudioBlock F)
  unfolding with_first
  sample_frame chunks r o =
      let frame = to_ℕ r.media_position in with_first chunks r frame (find_chunk chunks frame) o
