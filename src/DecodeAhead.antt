-- ===== src/DecodeAhead.antt =====
-- include/musicrat/backends/media/decode_ahead.hpp: the decoding thread's side of a pool. The
-- decoder is a template argument of the class (backends/media/decoder.hpp), and is an argument
-- `dec : Decoder F` here: its state, and the calls that the concept DecoderBackend asks for.
pub mod Rounds
pub mod Refill
mod Readers
pub mod Generations
mod Accounting
use music_ra_t.Common.{
  ℕ, zero, suc, ◌+◌, ◌%◌, ◌^◌, List, [], ◌∷◌, Bool, true, false, Option, none, some, get_elem?, ltb,
  length, ◌==◌, if◌then◌else◌, has_flag, add_u64,
}
use music_ra_t.Common.Floats.{Floats}
use music_ra_t.Audio.{AudioBlock, audio_block_end_of_stream}
use music_ra_t.Pool.{
  Pool, Slot, WriteReservation, put_slot, cancel, publish, try_begin_write, ready_count,
  discard_before_generation, ReadReservation, try_acquire, try_acquire_ready, release,
}

pub data MediaCodec : Type 0 where
  unknown pcm_wav flac mp3 aac opus : MediaCodec

pub data DecodeResult : Type 0 where
  decoded end_of_stream error : DecodeResult

pub data DecodeError : Type 0 where
  no_error invalid_argument file_open file_io unsupported_format invalid_metadata : DecodeError
  resource_exhausted seek_failed corrupt_data decoder_failure pool_failure : DecodeError

pub data DecodeAheadState : Type 0 where
  closed ready end_of_stream error : DecodeAheadState

pub record Decoder (F : Type 0) : Type 1 where
  pub D : Type 0
  pub FilePath : Type 0
  pub open_file : D → FilePath → Bool × D
  pub close_file : D → D
  pub seek_frame : D → ℕ → Bool × D
  pub current_frame : D → ℕ
  pub last_error : D → DecodeError
  pub read : D → AudioBlock F → ℕ → DecodeResult × AudioBlock F × D
  pub sample_rate_hz : D → ℕ
  pub channel_count : D → ℕ
  pub frame_count : D → ℕ
  pub codec : D → MediaCodec

-- `std::clamp` on unsigned numbers.
abbrev pub clamp_ℕ : ℕ → ℕ → ℕ → ℕ
clamp_ℕ v lo hi = if ltb v lo then lo else if ltb hi v then hi else v

abbrev pub is_ready_state : DecodeAheadState → Bool
is_ready_state DecodeAheadState.ready = true
is_ready_state _ = false

pub advance_generation : ℕ → ℕ
advance_generation g = let next = add_u64 g 1 in if next == 0 then add_u64 next 1 else next

pub record DecodeAhead (F D : Type 0) : Type 0 where
  pub decoder : D
  pub pool : Pool F
  pub chunk_frames : ℕ
  pub high_watermark : ℕ
  pub generation : ℕ
  pub state : DecodeAheadState
  pub last_error : DecodeError

module _ {F D : Type 0} where
  -- The constructor, over a new pool of `chunk_count` slots.
  unfoldable pub make : D → Pool F → ℕ → ℕ → ℕ → ℕ → DecodeAhead F D
  make decoder pool chunk_count max_frames chunk_frames high_watermark = record {
    decoder = decoder;
    pool = pool;
    chunk_frames = clamp_ℕ chunk_frames 1 max_frames;
    high_watermark = clamp_ℕ high_watermark 1 chunk_count;
    generation = 0;
    state = DecodeAheadState.closed;
    last_error = no_error;
  }

  -- The two calls that `open`, `close` and `seek` share: a new generation, and no older chunk.
  pub renew : DecodeAhead F D → DecodeAhead F D
  unfolding advance_generation
  renew d =
      let g = advance_generation d.generation in
      record d { generation = g; pool = (discard_before_generation d.pool g).1 }

-- A call of the rendering thread on the pool that `refill` fills: it takes a chunk or gives one back.
pub data ReaderCall (F : Type 0) : Type 0 where
  acquires : F → ℕ → ReaderCall F
  acquires_ready : ℕ → ReaderCall F
  releases : ReadReservation → ReaderCall F

abbrev pub first_gap : {A : Type 0} → List (List A) → List A
first_gap [] = []
first_gap (g ∷ gs) = g

abbrev pub later_gaps : {A : Type 0} → List (List A) → List (List A)
later_gaps [] = []
later_gaps (g ∷ gs) = gs

module _ (fl : Floats) where
  open fl use {F}

  unfoldable pub read_call : Pool F → ReaderCall F → Pool F
  read_call p (acquires x generation) = (try_acquire fl p x generation).1
  read_call p (acquires_ready generation) = (try_acquire_ready p generation).1
  read_call p (releases r) = release p r

  unfoldable pub read_calls : Pool F → List (ReaderCall F) → Pool F
  read_calls p [] = p
  read_calls p (c ∷ cs) = read_calls (read_call p c) cs

  abbrev pub interrupted : {D : Type 0} → DecodeAhead F D → List (ReaderCall F) → DecodeAhead F D
  interrupted d calls = record d { pool = read_calls d.pool calls }

module _ (fl : Floats) (dec : Decoder fl.F) where
  open fl use {F}
  open dec use {D}

  opened : DecodeAhead F D → Bool × D → Bool × DecodeAhead F D
  opened d (true, s) =
      (true, record d { decoder = s; last_error = no_error; state = DecodeAheadState.ready })
  opened d (false, s) = (
    false,
    record d { decoder = s; last_error = dec.last_error s; state = DecodeAheadState.error },
  )

  pub open_path : DecodeAhead F D → dec.FilePath → Bool × DecodeAhead F D
  unfolding opened renew
  open_path d path =
      let r = renew (record d { decoder = dec.close_file d.decoder }) in
      opened r (dec.open_file r.decoder path)

  pub close : DecodeAhead F D → DecodeAhead F D
  unfolding renew
  close d = record (renew (record d { decoder = dec.close_file d.decoder })) {
    last_error = no_error;
    state = DecodeAheadState.closed;
  }

  sought : DecodeAhead F D → ℕ → Bool × D → Bool × DecodeAhead F D
  unfolding renew
  sought d media_frame (false, s) = (false, record d { decoder = s; last_error = dec.last_error s })
  sought d media_frame (true, s) = (
    true,
    record (renew (record d { decoder = s })) {
      last_error = no_error;
      state =
          if media_frame == dec.frame_count s
          then DecodeAheadState.end_of_stream
          else DecodeAheadState.ready;
    },
  )

  pub seek : DecodeAhead F D → ℕ → Bool × DecodeAhead F D
  unfolding sought
  seek d media_frame = sought d media_frame (dec.seek_frame d.decoder media_frame)

  module _ (max_channels max_frames : ℕ) where
    -- The end of a round, after `publish`: whether to go on, the chunks published, the new state.
    published : DecodeAhead F D → Bool → Bool × Pool F → Bool × ℕ × DecodeAhead F D
    published d is_final (false, p) =
        (false, 0, record d { pool = p; last_error = pool_failure; state = DecodeAheadState.error })
    published d true (true, p) =
        (false, 1, record d { pool = p; state = DecodeAheadState.end_of_stream })
    published d false (true, p) = (true, 1, record d { pool = p })

    -- A round after the decoder's `read`, which has written to the slot.
    after_read :
        DecodeAhead F D → WriteReservation → ℕ → DecodeResult → ℕ → Bool × ℕ × DecodeAhead F D
    unfolding published
    after_read d r start DecodeResult.error flags = (
      false,
      0,
      record d {
        pool = cancel d.pool r;
        last_error = dec.last_error d.decoder;
        state = DecodeAheadState.error;
      },
    )
    after_read d r start DecodeResult.end_of_stream flags =
        (false, 0, record d { pool = cancel d.pool r; state = DecodeAheadState.end_of_stream })
    after_read d r start decoded flags =
        published d (has_flag flags audio_block_end_of_stream)
          (publish fl max_channels max_frames d.pool r start d.generation)

    read_into :
        DecodeAhead F D → WriteReservation → ℕ → Option (Slot F) → Bool × ℕ × DecodeAhead F D
    unfolding after_read
    read_into d r i none = (false, 0, d)
    read_into d r i (some s) =
        let (result, block, decoder) = dec.read d.decoder s.audio d.chunk_frames in
        after_read
          (record d { decoder = decoder; pool = put_slot d.pool i (record s { audio = block }) }) r
          (dec.current_frame d.decoder) result block.flags

    reserved : DecodeAhead F D → WriteReservation → Option ℕ → Bool × ℕ × DecodeAhead F D
    unfolding read_into
    reserved d r none = (false, 0, d)
    reserved d r (some i) = read_into d r i (get_elem? d.pool.slots i)

    -- One round of the loop of `refill`.
    pub round : DecodeAhead F D → Bool × ℕ × DecodeAhead F D
    unfolding reserved
    round d = let (r, p) = try_begin_write fl d.pool in reserved (record d { pool = p }) r r.audio

    -- The loop, on fuel; `none` means that the fuel ran out. Before each round come the calls of the
    -- rendering thread that the first of the lists gives.
    pub refill_loop :
        ℕ → List (List (ReaderCall F)) → DecodeAhead F D → ℕ → Option (ℕ × DecodeAhead F D)
    refill_loop zero gaps d chunks = none
    refill_loop (suc fuel) gaps d chunks =
        let e = interrupted fl d (first_gap gaps) in
        elim (ltb (ready_count e.pool.slots) e.high_watermark) [
          | false ↦ some (chunks, e)
          | true ↦ elim (round e).0 [
            | true ↦ refill_loop fuel (later_gaps gaps) (round e).2 (chunks + (round e).1)
            | false ↦ some (chunks + (round e).1, (round e).2)
          ]
        ]

    -- After the last of the lists, each round that goes on makes one more slot ready, so the fuel is
    -- enough.
    pub refill : List (List (ReaderCall F)) → DecodeAhead F D → Option (ℕ × DecodeAhead F D)
    refill gaps d = elim (is_ready_state d.state) [
      | true ↦ refill_loop (suc (length gaps + d.high_watermark)) gaps d 0
      | false ↦ some (0, d)
    ]
