-- ===== src/NoteEvents/Valid.antt =====
-- `validate_note_event_block` decides what a valid block of notes is.
use music_ra_t.Common.{ℕ, ◌≡◌, ◌≤◌, ◌<◌, ◌↔◌, refl, List, [], ◌∷◌, true, false, arith, has_flag}
use music_ra_t.Common.Floats.{Floats}
use music_ra_t.Protocol.{Block}
use music_ra_t.NoteEvents.{
  NoteEvent, NoteEventValidationError, least_value, validate_note_event, or_offset_error,
  validate_note_events, validate_note_event_block,
}

module _ (fl : Floats) where
  open fl use {F, is_finite, lt, of_ℕ}

  -- A MIDI note with a finite value of the range of its type.
  pub record IsNote (e : NoteEvent F) : Type 0 where
    pub channel_fits : e.channel < 16
    pub key_fits : e.key < 128
    pub finite : is_finite e.value ≡ true
    pub defined : e.type ≤ 5
    pub not_below : lt e.value (least_value fl e.type) ≡ false
    pub not_above : lt (of_ℕ 1) e.value ≡ false

  -- Each event is a note in the block, and no offset is below the one before it.
  abbrev pub Follows : ℕ → ℕ → List (NoteEvent F) → Type 0
  Follows frame_count previous_offset [] = Unit {0}
  Follows frame_count previous_offset (e ∷ es) =
      IsNote e
      × (e.sample_offset < frame_count)
      × (previous_offset ≤ e.sample_offset)
      × Follows frame_count e.sample_offset es

  validate-IsNote :
      (e : NoteEvent F) → validate_note_event fl e ≡ NoteEventValidationError.no_error → IsNote e
  unfolding validate_note_event
  validate-IsNote e h = record {
    channel_fits = ground arith;
    key_fits = ground arith;
    finite = ground arith;
    defined = ground arith;
    not_below = ground arith;
    not_above = ground arith;
  }

  IsNote-validate :
      (e : NoteEvent F) → IsNote e → validate_note_event fl e ≡ NoteEventValidationError.no_error
  unfolding validate_note_event
  IsNote-validate e n =
      ground (arith, n.channel_fits, n.key_fits, n.finite, n.defined, n.not_below, n.not_above)

  offset_of :
      (frame_count previous : ℕ) (e : NoteEvent F) (x rest : NoteEventValidationError)
      → or_offset_error fl frame_count previous e x rest ≡ NoteEventValidationError.no_error
      → (x ≡ NoteEventValidationError.no_error)
        × (e.sample_offset < frame_count)
        × (previous ≤ e.sample_offset)
        × (rest ≡ NoteEventValidationError.no_error)
  unfolding or_offset_error
  offset_of frame_count previous e NoteEventValidationError.no_error rest h =
      (refl, ground arith, ground arith, ground arith)
  offset_of frame_count previous e NoteEventValidationError.overflow rest h = cc
  offset_of frame_count previous e NoteEventValidationError.invalid_type rest h = cc
  offset_of frame_count previous e NoteEventValidationError.invalid_channel rest h = cc
  offset_of frame_count previous e NoteEventValidationError.invalid_key rest h = cc
  offset_of frame_count previous e NoteEventValidationError.invalid_value rest h = cc
  offset_of frame_count previous e NoteEventValidationError.offset_out_of_range rest h = cc
  offset_of frame_count previous e NoteEventValidationError.unsorted_offsets rest h = cc

  validate-Follows :
      (frame_count previous : ℕ) (es : List (NoteEvent F))
      → validate_note_events fl frame_count previous es ≡ NoteEventValidationError.no_error
      → Follows frame_count previous es
  unfolding validate_note_events
  validate-Follows frame_count previous [] h = tt
  validate-Follows frame_count previous (e ∷ es) h =
      let (n, o, p, r) = offset_of frame_count previous e _ _ h in
      (validate-IsNote e n, o, p, validate-Follows frame_count e.sample_offset es r)

  Follows-validate :
      (frame_count previous : ℕ) (es : List (NoteEvent F))
      → Follows frame_count previous es
      → validate_note_events fl frame_count previous es ≡ NoteEventValidationError.no_error
  unfolding validate_note_events or_offset_error
  Follows-validate frame_count previous [] h = refl
  Follows-validate frame_count previous (e ∷ es) (n, o, p, r) =
      rw (IsNote-validate e n) (ground (arith, Follows-validate frame_count e.sample_offset es r))

  -- The validation reports no error exactly when the block is not marked as overflown, each event
  -- is a note within the block, and no offset is below the one before it.
  pub validate_note_event_block_iff :
      (block : Block (NoteEvent F)) (frame_count : ℕ)
      → (validate_note_event_block fl block frame_count ≡ NoteEventValidationError.no_error)
        ↔ ((has_flag block.flags 0 ≡ false) × Follows frame_count 0 block.events)
  unfolding validate_note_event_block
  validate_note_event_block_iff block frame_count = (
    λ h. (ground arith, validate-Follows frame_count 0 block.events (ground arith)),
    λ v. rw v.0 (Follows-validate frame_count 0 block.events v.1),
  )
