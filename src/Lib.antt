-- ===== src/Lib.antt =====
-- MusicRaT, modelled and verified: the audio path from a decoder to the rendering thread of a deck,
-- the control path from a surface to the parameters and decks, and the load of a track.
--
-- The parts, each in the file of its name, with a folder for what is proved of it:
--   Audio                  include/musicrat/protocol/audio_block.hpp, utility/audio_block.hpp: the block
--                          of samples, and its validation.
--   Pool                   include/musicrat/backends/media/decoded_audio_pool.hpp: slots that the
--                          decoding thread fills and the rendering thread reads.
--   DecodeAhead            include/musicrat/backends/media/decode_ahead.hpp: open, close, seek and
--                          refill of a pool. A new track or position is a new generation.
--   Coordinator            include/musicrat/backends/media/playback_coordinator.hpp: what the decoding
--                          thread publishes, and how the rendering thread reads it; Coordinator.Adoption
--                          is its `render`.
--   DecodeAheadRenderer    include/musicrat/backends/media/decode_ahead_renderer.hpp: a renderer over
--                          the chunks that it reserves in a pool; `play` is `render`.
--   Varispeed              include/musicrat/dsp/varispeed_renderer.hpp: the renderer of a deck, with its
--                          chunks (Chunks), deck controls (Controls), frames (Frames), loop (Loop) and
--                          two render methods (Rendering).
--   SelectionLoad          include/musicrat/control/selection_load.hpp: one load of a track.
--   NoteEvents             include/musicrat/protocol/note_events.hpp, utility/note_events.hpp.
--   Adsr                   include/musicrat/dsp/adsr_envelope.hpp: an envelope.
--   NoteVoices             include/musicrat/dsp/note_voice_bank.hpp: the voices of a synthesiser, each
--                          with two envelopes of Adsr.
--   BeatGrid               include/musicrat/dsp/beat_grid.hpp: frames, beats and bars.
--   Spsc                   include/musicrat/utility/spsc_queue.hpp: the ring between two threads.
--   Protocol               include/musicrat/protocol/: the messages of the control path.
--   Timeline               the ordered insertion of include/musicrat/dsp/control_mapper.hpp and
--                          deck_control_quantizer.hpp.
--   ControlMapper          include/musicrat/dsp/control_mapper.hpp; ControlMapper.Table is its table
--                          of bindings (configure and synchronize).
--   ActionMapper           include/musicrat/dsp/action_mapper.hpp.
--   ControlFeedbackRouter  include/musicrat/dsp/control_feedback_router.hpp.
--   WidgetUpdateMerger     include/musicrat/dsp/widget_update_merger.hpp.
--   DeckControlQuantizer   include/musicrat/dsp/deck_control_quantizer.hpp.
--   Common                 lists, words, flags, Boolean tests, the interface to double, and the
--                          account of a block with limited room.
--   Tests                  each theorem at concrete values.
--
-- How they interact: DecodeAhead fills a Pool through the calls of Pool, and renews the generation;
-- Coordinator calls DecodeAhead and publishes its generation under a version that is odd while the
-- publication is under way. The rendering thread reads what was published and calls
-- DecodeAheadRenderer, which renders the chunks that it reserves with Varispeed. The mappers take
-- blocks of Protocol and give blocks of Protocol; ControlMapper and DeckControlQuantizer keep them
-- in order through Timeline.
--
-- Conventions. A class is a record, a method a function from the record to the new one and its
-- result; a method keeps its name, with its class's name added where two would collide
-- (`process_actions`, `merge`, `quantize`). Unsigned numbers are natural numbers, with the
-- wrap-around written out where the code adds or subtracts. `double` is the argument
-- `fl : Floats`; the theorems that compare values assume `IsOrdered fl`, which holds of IEEE 754.
-- The capacities that the build sets are arguments. A decoder is an argument `dec : Decoder F`.
--
-- Fuel: `range_is_resident` takes one round more than there are frames in the range, since each
-- round moves its cursor towards the end. `refill` takes one round for each list of calls that the
-- rendering thread makes meanwhile, the watermark, and one more: after the last of these calls each
-- round that goes on makes one more slot ready. No theorem depends on the fuel.
--
-- Threads: a call of Pool is one step. Calls of the rendering thread that take a chunk or give one
-- back come between the rounds of `refill`, before the test of the loop, in finitely many rounds; a
-- call within a round is not interleaved with it. With calls without end the loop need not end
-- before the track does. The stores of Coordinator and the steps of Spsc are atomic
-- and interleaved, in a memory that is sequentially consistent.
--
-- Not modelled: the diagnostics of the coordinator, the pitch lock (a build option), the readers of
-- files and the sound system (input and output), the other processors of samples (numerical), the
-- modules and the applications (wiring of a framework outside the repository), and the application
-- designer.
pub mod ActionMapper
pub mod Adsr
pub mod Audio
pub mod BeatGrid
pub mod Common
pub mod ControlFeedbackRouter
pub mod ControlMapper
pub mod Coordinator
pub mod DeckControlQuantizer
pub mod DecodeAhead
pub mod DecodeAheadRenderer
pub mod NoteEvents
pub mod NoteVoices
pub mod Pool
pub mod Protocol
pub mod SelectionLoad
pub mod Spsc
pub mod Tests
pub mod Timeline
pub mod Varispeed
pub mod WidgetUpdateMerger
