-- ===== src/Pool.antt =====
-- include/musicrat/backends/media/decoded_audio_pool.hpp: a fixed set of slots that a decoding
-- thread fills and a rendering thread reads. A call is one step here: what it does between its
-- atomic loads and stores is not interleaved with calls of the other thread. ChunkCount is the
-- number of slots; a pointer `&slots_[i].audio` is the number i, and null is `none`.
pub mod Taken
pub mod Scan
pub mod Valid
pub mod Steps
pub mod Reservations
pub mod Range
pub mod Slots
pub mod Readers
use music_ra_t.Common.{
  ℕ, zero, suc, ◌+◌, ◌-◌, ◌%◌, ◌^◌, List, [], ◌∷◌, Bool, true, false, not, ◌&&◌, ◌||◌, Option, none,
  some, length, get_elem?, set, ltb, ◌==◌, if◌then◌else◌, add_u64, sub_u64,
}
use music_ra_t.Common.Floats.{Floats}
use music_ra_t.Audio.{
  AudioBlock, AudioBlockValidationError, validate_audio_block, clear_audio_channels,
}

pub data SlotState : Type 0 where
  free writing ready reading : SlotState

pub record Slot (F : Type 0) : Type 0 where
  pub audio : AudioBlock F
  pub start_frame : ℕ
  pub generation : ℕ
  pub frame_count : ℕ
  pub state : SlotState

pub record Pool (F : Type 0) : Type 0 where
  pub slots : List (Slot F)
  pub resident_frames : ℕ
  pub next_write_index : ℕ

pub record BufferedFrameRange : Type 0 where
  pub start_frame : ℕ
  pub end_frame : ℕ

pub record WriteReservation : Type 0 where
  pub index : ℕ
  pub audio : Option ℕ

-- `DecodedAudioChunkView`, of dsp/varispeed_renderer.hpp.
pub record ChunkView : Type 0 where
  pub audio : Option ℕ
  pub start_frame : ℕ
  pub generation : ℕ

pub record ReadReservation : Type 0 where
  pub index : ℕ
  pub chunk : ChunkView

abbrev pub invalid_index : ℕ
invalid_index = 2 ^ 64 - 1

abbrev pub no_write : WriteReservation
no_write = record { index = invalid_index; audio = none }

abbrev pub no_read : ReadReservation
no_read = record {
  index = invalid_index;
  chunk = record { audio = none; start_frame = 0; generation = 0 };
}

abbrev pub points_to : Option ℕ → ℕ → Bool
points_to none i = false
points_to (some j) i = j == i

abbrev pub is_free : SlotState → Bool
is_free free = true
is_free _ = false

abbrev pub is_writing : SlotState → Bool
is_writing writing = true
is_writing _ = false

abbrev pub is_ready : SlotState → Bool
is_ready ready = true
is_ready _ = false

abbrev pub is_reading : SlotState → Bool
is_reading reading = true
is_reading _ = false

abbrev pub is_resident : SlotState → Bool
is_resident ready = true
is_resident reading = true
is_resident _ = false

module _ {F : Type 0} where
  -- A store to one slot.
  abbrev pub put_slot : Pool F → ℕ → Slot F → Pool F
  put_slot p i s = record p { slots = set p.slots i s }

  abbrev pub put_state : Pool F → ℕ → Slot F → SlotState → Pool F
  put_state p i s st = put_slot p i (record s { state = st })

  pub valid_reservation : Pool F → WriteReservation → Bool
  valid_reservation p r = ltb r.index (length p.slots) && points_to r.audio r.index

  cancel_slot : Pool F → ℕ → Option (Slot F) → Pool F
  cancel_slot p i none = p
  cancel_slot p i (some s) = if is_writing s.state then put_state p i s free else p

  pub cancel : Pool F → WriteReservation → Pool F
  unfolding valid_reservation cancel_slot
  cancel p r =
      if valid_reservation p r then cancel_slot p r.index (get_elem? p.slots r.index) else p

  unfoldable pub read_view : ℕ → Slot F → ReadReservation
  read_view i s = record {
    index = i;
    chunk = record { audio = some i; start_frame = s.start_frame; generation = s.generation };
  }

  -- The loop of `try_acquire` and `try_acquire_ready`, from slot `i` on with `n` slots left. A slot
  -- that fails the test was taken for a moment, and is put back.
  pub acquire_from : (Slot F → Bool) → Pool F → ℕ → ℕ → ReadReservation × Pool F
  acquire_from test p zero i = (no_read, p)
  acquire_from test p (suc n) i = elim (get_elem? p.slots i) [
    | none ↦ (no_read, p)
    | some s ↦ elim (is_ready s.state) [
      | false ↦ acquire_from test p n (suc i)
      | true ↦ elim (test s) [
        | true ↦ (read_view i s, put_state p i s reading)
        | false ↦ acquire_from test (put_state (put_state p i s reading) i s ready) n (suc i)
      ]
    ]
  ]

  pub try_acquire_ready : Pool F → ℕ → ReadReservation × Pool F
  unfolding acquire_from read_view
  try_acquire_ready p generation =
      acquire_from (λ s. s.generation == generation) p (length p.slots) 0

  release_slot : Pool F → ℕ → Option (Slot F) → Pool F
  release_slot p i none = p
  release_slot p i (some s) =
      if is_reading s.state
      then record (put_state p i s free) {
        resident_frames = sub_u64 p.resident_frames s.audio.frame_count;
      }
      else p

  pub release : Pool F → ReadReservation → Pool F
  unfolding release_slot
  release p r =
      if ltb r.index (length p.slots) && points_to r.chunk.audio r.index
      then release_slot p r.index (get_elem? p.slots r.index)
      else p

  is_old : ℕ → Slot F → Bool
  is_old generation s = is_ready s.state && ltb s.generation generation

  -- The loop of `discard_before_generation`: the slots, the resident frames and the count.
  discard_slots : ℕ → List (Slot F) → ℕ → ℕ → List (Slot F) × ℕ × ℕ
  unfolding is_old
  discard_slots generation [] resident discarded = ([], resident, discarded)
  discard_slots generation (s ∷ ss) resident discarded =
      let old = is_old generation s in
      let (ss', resident', discarded') =
        discard_slots generation ss (if old then sub_u64 resident s.audio.frame_count else resident)
          (if old then discarded + 1 else discarded) in
      ((if old then record s { state = free } else s) ∷ ss', resident', discarded')

  pub discard_before_generation : Pool F → ℕ → ℕ × Pool F
  unfolding discard_slots
  discard_before_generation p generation =
      let (slots, resident, discarded) = discard_slots generation p.slots p.resident_frames 0 in
      (discarded, record p { slots = slots; resident_frames = resident })

  pub ready_count : List (Slot F) → ℕ
  ready_count [] = 0
  ready_count (s ∷ ss) = let n = ready_count ss in if is_ready s.state then suc n else n

  -- The result so far of `buffered_range`, with its flag `found`.
  widen : BufferedFrameRange → Bool → Slot F → BufferedFrameRange
  widen range found s =
      let end =
        if ltb (2 ^ 64 - 1 - s.frame_count) s.start_frame
        then 2 ^ 64 - 1
        else s.start_frame + s.frame_count in
      record {
        start_frame =
            if not found || ltb s.start_frame range.start_frame
            then s.start_frame
            else range.start_frame;
        end_frame = if not found || ltb range.end_frame end then end else range.end_frame;
      }

  skipped : ℕ → Slot F → Bool
  skipped generation s =
      not (is_resident s.state) || not (s.generation == generation) || s.frame_count == 0

  range_slots : ℕ → List (Slot F) → BufferedFrameRange → Bool → BufferedFrameRange
  unfolding widen skipped
  range_slots generation [] range found = range
  range_slots generation (s ∷ ss) range found =
      let skip = skipped generation s in
      range_slots generation ss (if skip then range else widen range found s) (not skip || found)

  pub buffered_range : Pool F → ℕ → BufferedFrameRange
  unfolding range_slots
  buffered_range p generation =
      range_slots generation p.slots (record { start_frame = 0; end_frame = 0 }) false

module _ (fl : Floats) where
  open fl use {F}

  -- `slots_[index].audio = {}`
  abbrev pub empty_audio : AudioBlock F → AudioBlock F
  empty_audio b = record (clear_audio_channels b) {
    sample_rate_hz = fl.of_ℕ 0;
    timestamp_ns = 0;
    sequence_number = 0;
    frame_count = 0;
    channel_count = 0;
    flags = 0;
  }

  unfoldable pub claim : Pool F → ℕ → Slot F → WriteReservation × Pool F
  claim p i s = (
    record { index = i; audio = some i },
    record (put_slot p i (record s { state = writing; audio = empty_audio s.audio })) {
      next_write_index = (i + 1) % length p.slots;
    },
  )

  -- The loop of `try_begin_write`, from `offset` on with `n` rounds left.
  unfoldable pub begin_from : Pool F → ℕ → ℕ → WriteReservation × Pool F
  begin_from p zero offset = (no_write, p)
  begin_from p (suc n) offset =
      let i = (p.next_write_index + offset) % length p.slots in
      let rest = begin_from p n (suc offset) in
      elim (get_elem? p.slots i) [
        | none ↦ (no_write, p)
        | some s ↦ if is_free s.state then claim p i s else rest
      ]

  unfoldable pub try_begin_write : Pool F → WriteReservation × Pool F
  unfolding begin_from claim clear_audio_channels
  try_begin_write p = begin_from p (length p.slots) 0

  pub contains : Slot F → F → Bool
  contains s media_position =
      let start = fl.of_ℕ s.start_frame in
      fl.le start media_position
      && fl.lt media_position (fl.add start (fl.of_ℕ s.audio.frame_count))

  pub try_acquire : Pool F → F → ℕ → ReadReservation × Pool F
  unfolding contains acquire_from read_view
  try_acquire p media_position generation =
      if not (fl.is_finite media_position) || fl.lt media_position (fl.of_ℕ 0)
      then (no_read, p)
      else acquire_from (λ s. s.generation == generation && contains s media_position) p
          (length p.slots) 0

  module _ (max_channels max_frames : ℕ) where
    publish_slot : Pool F → WriteReservation → ℕ → ℕ → Option (Slot F) → Bool × Pool F
    publish_slot p r start_frame generation none = (false, p)
    publish_slot p r start_frame generation (some s) =
        elim (validate_audio_block fl max_channels max_frames s.audio) [
          | AudioBlockValidationError.no_error ↦ (
            true,
            record (put_slot p r.index (record s {
              start_frame = start_frame;
              generation = generation;
              frame_count = s.audio.frame_count;
              state = ready;
            })) { resident_frames = add_u64 p.resident_frames s.audio.frame_count },
          )
          | _ ↦ (false, cancel p r)
        ]

    pub publish : Pool F → WriteReservation → ℕ → ℕ → Bool × Pool F
    unfolding publish_slot valid_reservation cancel
    publish p r start_frame generation =
        if valid_reservation p r
        then publish_slot p r start_frame generation (get_elem? p.slots r.index)
        else (false, cancel p r)
