-- ===== src/Varispeed/Rendering.antt =====
-- The two `render` methods.
pub mod Shape
pub mod Generation
pub mod Underrun
use music_ra_t.Common.{
  ℕ, zero, suc, ◌+◌, ◌-◌, ◌%◌, ◌^◌, List, [], ◌∷◌, ◌++◌, map, Bool, true, false, ◌&&◌, ◌||◌, not,
  Option, none, some, length, get_elem?, set, ltb, leb, ◌==◌, if◌then◌else◌, add_u64, sub_u64,
  add_u32, has_flag, set_flag,
}
use music_ra_t.Common.Floats.{Floats}
use music_ra_t.Audio.{
  AudioBlock, clear_audio_channels, mark_invalid_audio_block, audio_block_silence,
  audio_block_end_of_stream, audio_block_underrun, audio_block_discontinuity,
}
use music_ra_t.Protocol.{Block, DeckControlEvent}
use music_ra_t.Varispeed.{Renderer}
use music_ra_t.Varispeed.Chunks.{
  View, Chunk, find_chunk, valid_request, front_audio, find_final_end, chunk_end,
}
use music_ra_t.Varispeed.Controls.{apply_control, wrap_loop_position}
use music_ra_t.Varispeed.Frames.{
  initialize_output, append_silent_frame, fill_silence, fill_rates, next_rate, sample_frame,
}
use music_ra_t.Varispeed.Loop.{Session, offsets_ascend, valid_controls, apply_due, render_frames}

pub record VarispeedRenderResult (F : Type 0) : Type 0 where
  pub source_frames_rendered : ℕ
  pub silent_frames : ℕ
  pub media_position : F
  pub reached_end : Bool
  pub generation_mismatch : Bool

module _ (fl : Floats) where
  open fl use {F, le, of_ℕ}

  pub any_of_other_generation : ℕ → List (Chunk F) → Bool
  any_of_other_generation generation [] = false
  any_of_other_generation generation (c ∷ cs) =
      not (c.generation == generation) || any_of_other_generation generation cs

  pub record Rendered : Type 0 where
    pub result : VarispeedRenderResult F
    pub renderer : Renderer F
    pub output : AudioBlock F
    pub rates : List F

  abbrev nothing_rendered : Renderer F → VarispeedRenderResult F
  nothing_rendered r = record {
    source_frames_rendered = 0;
    silent_frames = 0;
    media_position = r.media_position;
    reached_end = false;
    generation_mismatch = false;
  }

  pub refused : Renderer F → AudioBlock F → List F → Rendered
  refused r o rates = record {
    result = nothing_rendered r;
    renderer = r;
    output = mark_invalid_audio_block o;
    rates = rates;
  }

  -- A chunk of another generation: silence.
  mismatched : ℕ → Renderer F → AudioBlock F → List F → Rendered
  mismatched frames r o rates =
      let filled = fill_silence fl frames o in
      record {
        result = record (nothing_rendered r) { silent_frames = frames; generation_mismatch = true };
        renderer = r;
        output = record filled {
          flags = set_flag (set_flag filled.flags audio_block_silence) audio_block_underrun;
        };
        rates = fill_rates fl rates frames r.current_rate;
      }

  finished : Session F → Rendered
  finished s = record {
    result = record {
      source_frames_rendered = s.source_frames_rendered;
      silent_frames = s.silent_frames;
      media_position = s.renderer.media_position;
      reached_end = s.reached_end;
      generation_mismatch = false;
    };
    renderer = s.renderer;
    output = record (s.output) {
      flags =
          if s.source_frames_rendered == 0
          then set_flag s.output.flags audio_block_silence
          else s.output.flags;
    };
    rates = s.rates;
  }

  -- The session at the start of the loop; a pending discontinuity is put out.
  begun : Renderer F → AudioBlock F → List F → Session F
  begun r o rates = record {
    renderer = record r { pending_discontinuity = false };
    output = record o {
      flags =
          if r.pending_discontinuity then set_flag o.flags audio_block_discontinuity else o.flags;
    };
    rates = rates;
    source_frames_rendered = 0;
    silent_frames = 0;
    reached_end = false;
  }

  front_rate : List (Chunk F) → F
  front_rate [] = of_ℕ 0
  front_rate (c ∷ cs) = c.audio.sample_rate_hz

  -- What follows `valid_request`, which has given the chunks of a valid request.
  render_chunks :
      Option (List (Chunk F))
      → F
      → ℕ
      → Option (Block (DeckControlEvent F))
      → Renderer F
      → AudioBlock F
      → List F
      → Rendered
  unfolding refused mismatched finished begun front_rate
  render_chunks none output_rate frames controls r o rates = refused r o rates
  render_chunks (some chunks) output_rate frames controls r o rates =
      if not (length rates == 0) && ltb (length rates) frames
      then refused r o rates
      else if any_of_other_generation r.generation chunks
      then mismatched frames r o rates
      else finished (
          render_frames fl chunks (front_rate chunks) output_rate (find_final_end fl chunks) frames
            0 (valid_controls controls frames) (begun r o rates))

  module _ (max_channels max_frames : ℕ) where
    pub render :
        List (View F)
        → F
        → ℕ
        → ℕ
        → ℕ
        → Option (Block (DeckControlEvent F))
        → Renderer F
        → AudioBlock F
        → List F
        → Rendered
    unfolding render_chunks
    render views output_rate frames timestamp_ns sequence_number controls r output rates =
        render_chunks (valid_request fl max_channels max_frames views output_rate frames)
          output_rate frames controls r
          (initialize_output fl (front_audio views) output_rate frames timestamp_ns sequence_number
            output)
          rates

    -- The loop of `render_underrun`, which has no chunks.
    underrun_frames :
        ℕ → ℕ → List (DeckControlEvent F) → Renderer F → AudioBlock F → Renderer F × AudioBlock F
    underrun_frames zero frame events r o = (r, o)
    underrun_frames (suc n) frame events r o =
        let (rest, q, flags) = apply_due fl [] frame events r o.flags in
        underrun_frames n (suc frame) rest q (append_silent_frame fl (record o { flags = flags }))

    underrun : ℕ → Renderer F × AudioBlock F → F → Rendered
    underrun frames (r, o) position = record {
      result = record {
        source_frames_rendered = 0;
        silent_frames = frames;
        media_position = position;
        reached_end = false;
        generation_mismatch = false;
      };
      renderer = r;
      output = record o {
        flags = set_flag (set_flag o.flags audio_block_silence) audio_block_underrun;
      };
      rates = [];
    }

    pub render_underrun :
        ℕ
        → F
        → ℕ
        → ℕ
        → ℕ
        → Option (Block (DeckControlEvent F))
        → Renderer F
        → AudioBlock F
        → Rendered
    unfolding refused underrun
    render_underrun channels output_rate frames timestamp_ns sequence_number controls r output =
        let o : AudioBlock F =
          record (initialize_output fl none output_rate frames timestamp_ns sequence_number
            output) { channel_count = channels } in
        if not (fl.is_finite output_rate)
          || le output_rate (of_ℕ 0)
          || ltb max_channels channels
          || frames == 0
          || ltb max_frames frames
        then refused r o []
        else underrun frames (underrun_frames frames 0 (valid_controls controls frames) r o)
            r.media_position
