-- ===== src/NoteEvents.antt =====
-- include/musicrat/protocol/note_events.hpp and include/musicrat/utility/note_events.hpp: note
-- events and the validation of a block. `F` stands for `float`.
pub mod Valid
use music_ra_t.Common.{
  ℕ, List, [], ◌∷◌, Bool, true, false, ◌&&◌, ◌||◌, not, ltb, leb, ◌==◌, if◌then◌else◌, has_flag,
}
use music_ra_t.Common.Floats.{Floats}
use music_ra_t.Protocol.{Block}

pub record NoteEvent (F : Type 0) : Type 0 where
  pub source_endpoint_id : ℕ
  pub note_id : ℕ
  pub sample_offset : ℕ
  pub type : ℕ
  pub channel : ℕ
  pub key : ℕ
  pub value : F

pub data NoteEventValidationError : Type 0 where
  no_error overflow invalid_type invalid_channel invalid_key : NoteEventValidationError
  invalid_value offset_out_of_range unsorted_offsets : NoteEventValidationError

module _ (fl : Floats) where
  open fl use {F, is_finite, lt, of_ℕ, neg}

  -- The types are 0 on, 1 off, 2 pressure, 3 pitch, 4 timbre, 5 all off; a pitch may be negative.
  pub least_value : ℕ → F
  least_value type = if type == 3 then neg (of_ℕ 1) else of_ℕ 0

  -- The loop body, up to the offsets: the error of one event.
  pub validate_note_event : NoteEvent F → NoteEventValidationError
  validate_note_event e =
      if leb 16 e.channel
      then NoteEventValidationError.invalid_channel
      else if leb 128 e.key
      then NoteEventValidationError.invalid_key
      else if not (is_finite e.value)
      then NoteEventValidationError.invalid_value
      else if ltb 5 e.type
      then NoteEventValidationError.invalid_type
      else if lt e.value (least_value e.type) || lt (of_ℕ 1) e.value
      then NoteEventValidationError.invalid_value
      else NoteEventValidationError.no_error

  -- The error of the event, or else that of its offset. `previous_offset` is 0 at the first event,
  -- which no offset is below.
  pub or_offset_error :
      ℕ
      → ℕ
      → NoteEvent F
      → NoteEventValidationError
      → NoteEventValidationError
      → NoteEventValidationError
  or_offset_error frame_count previous_offset e NoteEventValidationError.no_error rest =
      if leb frame_count e.sample_offset
      then NoteEventValidationError.offset_out_of_range
      else if ltb e.sample_offset previous_offset
      then NoteEventValidationError.unsorted_offsets
      else rest
  or_offset_error frame_count previous_offset e error rest = error

  pub validate_note_events : ℕ → ℕ → List (NoteEvent F) → NoteEventValidationError
  validate_note_events frame_count previous_offset [] = NoteEventValidationError.no_error
  validate_note_events frame_count previous_offset (e ∷ es) =
      or_offset_error frame_count previous_offset e (validate_note_event e)
        (validate_note_events frame_count e.sample_offset es)

  -- NOTE_EVENT_BLOCK_OVERFLOW is bit 0.
  pub validate_note_event_block : Block (NoteEvent F) → ℕ → NoteEventValidationError
  validate_note_event_block block frame_count =
      if has_flag block.flags 0
      then NoteEventValidationError.overflow
      else validate_note_events frame_count 0 block.events
