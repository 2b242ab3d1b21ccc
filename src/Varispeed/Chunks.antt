-- ===== src/Varispeed/Chunks.antt =====
-- The decoded chunks that a renderer is given. A pointer to a block is `none` when it is null; the
-- chunks that have passed `valid_request` have no such pointer, and hold their block.
pub mod Residency
pub mod Uniform
use music_ra_t.Common.{
  ℕ, zero, suc, ◌+◌, ◌-◌, List, [], ◌∷◌, Bool, true, false, ◌&&◌, ◌||◌, not, Option, none, some,
  length, get_elem?, ltb, leb, ◌==◌, if◌then◌else◌, add_u64, has_flag, min,
}
use music_ra_t.Common.Floats.{Floats}
use music_ra_t.Audio.{
  AudioBlock, AudioBlockValidationError, validate_audio_block, audio_block_end_of_stream,
}

-- `DecodedAudioChunkView`
pub record View (F : Type 0) : Type 0 where
  pub audio : Option (AudioBlock F)
  pub start_frame : ℕ
  pub generation : ℕ

pub record Chunk (F : Type 0) : Type 0 where
  pub audio : AudioBlock F
  pub start_frame : ℕ
  pub generation : ℕ

module _ {F : Type 0} where
  -- The frame behind the last one of a chunk.
  abbrev pub chunk_end : Chunk F → ℕ
  chunk_end c = add_u64 c.start_frame c.audio.frame_count

  pub holds_frame : Chunk F → ℕ → Bool
  holds_frame c frame = leb c.start_frame frame && ltb frame (chunk_end c)

  pub find_chunk : List (Chunk F) → ℕ → Option (Chunk F)
  unfolding holds_frame
  find_chunk [] frame = none
  find_chunk (c ∷ cs) frame = if holds_frame c frame then some c else find_chunk cs frame

  -- The loop of `range_is_resident`, on fuel; `none` means that the fuel ran out.
  pub resident_from : ℕ → ℕ → ℕ → List (Chunk F) → Option Bool
  resident_from zero cursor end_ chunks = none
  resident_from (suc fuel) cursor end_ chunks = elim (ltb cursor end_) [
    | false ↦ some true
    | true ↦ elim (find_chunk chunks cursor) [
      | none ↦ some false
      | some c ↦ elim (leb (chunk_end c) cursor) [
        | true ↦ some false
        | false ↦ resident_from fuel (min (chunk_end c) end_) end_ chunks
      ]
    ]
  ]

  -- Each round moves the cursor towards the end, so the fuel is enough.
  pub range_is_resident : ℕ → ℕ → List (Chunk F) → Option Bool
  range_is_resident start end_ chunks = resident_from (suc (end_ - start)) start end_ chunks

  -- `chunks.empty() ? nullptr : chunks.front().audio`
  pub front_audio : List (View F) → Option (AudioBlock F)
  front_audio [] = none
  front_audio (v ∷ vs) = v.audio

module _ (fl : Floats) where
  open fl use {F, add, of_ℕ, infinity}

  pub find_final_end : List (Chunk F) → F
  find_final_end [] = infinity
  find_final_end (c ∷ cs) =
      if has_flag c.audio.flags audio_block_end_of_stream
      then add (of_ℕ c.start_frame) (of_ℕ c.audio.frame_count)
      else find_final_end cs

abbrev pub is_no_error : AudioBlockValidationError → Bool
is_no_error AudioBlockValidationError.no_error = true
is_no_error _ = false

module _ (fl : Floats) (max_channels max_frames : ℕ) where
  open fl use {F, is_finite, le, eq, of_ℕ}

  -- A block passes if it is valid and has the channels and the rate of the first one.
  pub is_uniform : ℕ → F → AudioBlock F → Bool
  is_uniform channel_count sample_rate_hz b =
      is_no_error (validate_audio_block fl max_channels max_frames b)
      && b.channel_count == channel_count
      && eq b.sample_rate_hz sample_rate_hz

  uniform_cons :
      ℕ → F → View F → Option (AudioBlock F) → Option (List (Chunk F)) → Option (List (Chunk F))
  uniform_cons channel_count rate v none rest = none
  uniform_cons channel_count rate v (some b) none = none
  uniform_cons channel_count rate v (some b) (some cs) =
      if is_uniform channel_count rate b
      then some
          ((record { audio = b; start_frame = v.start_frame; generation = v.generation }) ∷ cs)
      else none

  -- The loop of `valid_request`: the chunks, if all pass.
  pub uniform_chunks : ℕ → F → List (View F) → Option (List (Chunk F))
  unfolding uniform_cons
  uniform_chunks channel_count rate [] = some []
  uniform_chunks channel_count rate (v ∷ vs) =
      uniform_cons channel_count rate v v.audio (uniform_chunks channel_count rate vs)

  request_chunks : Option (AudioBlock F) → F → ℕ → List (View F) → Option (List (Chunk F))
  request_chunks none rate frames views = none
  request_chunks (some front) rate frames views =
      if not (is_finite rate) || le rate (of_ℕ 0) || frames == 0 || ltb max_frames frames
      then none
      else uniform_chunks front.channel_count front.sample_rate_hz views

  -- `valid_request`: the chunks of a request that is valid.
  pub valid_request : List (View F) → F → ℕ → Option (List (Chunk F))
  unfolding request_chunks front_audio
  valid_request views rate frames = request_chunks (front_audio views) rate frames views
