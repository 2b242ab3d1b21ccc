-- ===== src/Tests/Playback.antt =====
-- The renderer over two chunks of a track of four frames.
use music_ra_t.Common.{ℕ, ◌≡◌, ◌↔◌, ◌⊎◌, refl, [], ◌∷◌, List, Bool, true, none, some, arith}
use music_ra_t.Common.Int.{ℤ, pos}
use music_ra_t.Common.Floats.{integers}
use music_ra_t.Protocol.{Block, DeckControlEvent}
use music_ra_t.Tests.Media.{silence, two_frames}
use music_ra_t.Varispeed.{new_renderer, valid_rate}
use music_ra_t.Varispeed.Chunks.{View, Chunk, range_is_resident, valid_request}
use music_ra_t.Varispeed.Chunks.Residency.{Covered, range_is_resident_lem}
use music_ra_t.Varispeed.Consistent.{IsConsistent, new_renderer-IsConsistent}
use music_ra_t.Varispeed.Frames.Sizes.{Target}
use music_ra_t.Varispeed.History.{Call, calls, calls_new-IsConsistent}
use music_ra_t.Varispeed.Rendering.{render, render_underrun}
use music_ra_t.Varispeed.Rendering.Shape.{IsDelivered, IsRefused, Outcome, render_lem}
use music_ra_t.Varispeed.Rendering.Underrun.{IsAccepted, render_underrun_lem}

abbrev chunks : List (Chunk ℤ)
chunks =
    (record { audio = two_frames; start_frame = 2; generation = 0 })
    ∷ (record { audio = two_frames; start_frame = 0; generation = 0 })
    ∷ []

abbrev views : List (View ℤ)
views =
    (record { audio = some two_frames; start_frame = 0; generation = 0 })
    ∷ (record { audio = some two_frames; start_frame = 2; generation = 0 })
    ∷ []

abbrev control : ℕ → ℕ → ℤ → DeckControlEvent ℤ
control type sample_offset value = record {
  type = type;
  sample_offset = sample_offset;
  value = value;
  ramp_frames = 0;
  quantization = 0;
}

-- A cue at frame 2, a loop over the track and the press of the cue button.
abbrev controls : Block (DeckControlEvent ℤ)
controls = record {
  events =
      control 4 0 (pos 2)
      ∷ control 7 0 (pos 0)
      ∷ control 8 0 (pos 4)
      ∷ control 9 1 (pos 0)
      ∷ control 11 2 (pos 0)
      ∷ [];
  timestamp_ns = 0;
  sequence_number = 0;
  flags = 0;
}

range_is_resident_lem_example :
    (b : Bool) × (range_is_resident 0 4 chunks ≡ some b) × ((b ≡ true) ↔ Covered chunks 0 4)
range_is_resident_lem_example = range_is_resident_lem 0 4 chunks

abbrev target : Target ℤ
target = record { channels = 1; frames = 3; rate = pos 48000 }

render_lem_example :
    Outcome integers 2 8
      (valid_request integers 2 8 views (pos 48000) 3)
      3
      (new_renderer integers)
      []
      (render integers 2 8 views
        (pos 48000)
        3
        0
        0
        (some controls)
        (new_renderer integers)
        silence
        [])
unfolding valid_rate new_renderer
render_lem_example =
    render_lem integers 2 8 views (pos 48000) 3 0 0 (some controls) (new_renderer integers) silence
      [] (omega arith) (new_renderer-IsConsistent integers refl)

render_underrun_lem_example :
    let out =
      render_underrun integers 2 8 1
        (pos 48000)
        3
        0
        0
        (some controls)
        (new_renderer integers)
        silence in
    (IsAccepted integers 2 8 target × IsDelivered integers 2 8 3 out)
    ⊎ ((¬ IsAccepted integers 2 8 target) × IsRefused integers 2 8 (new_renderer integers) out)
unfolding valid_rate new_renderer
render_underrun_lem_example =
    render_underrun_lem integers 2 8 target 0 0 (some controls) (new_renderer integers) silence
      (new_renderer-IsConsistent integers refl)

abbrev evening : List (Call integers)
evening =
    Call.prepares 0 (pos 0)
    ∷ Call.renders views (pos 48000) 3 0 0 (some controls) silence []
    ∷ Call.ramps (pos 2) 4
    ∷ Call.starves 1 (pos 48000) 3 0 0 none silence
    ∷ Call.takes_seek
    ∷ []

calls_new-IsConsistent_example :
    IsConsistent integers (calls integers 2 8 evening (new_renderer integers))
unfolding valid_rate new_renderer
calls_new-IsConsistent_example = calls_new-IsConsistent integers 2 8 evening refl
