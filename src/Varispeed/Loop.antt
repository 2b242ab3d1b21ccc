-- ===== src/Varispeed/Loop.antt =====
-- The loop of `render`. An empty `rendered_rates` is no span; a null pointer to the controls is
-- `none`.
pub mod Kept
pub mod Generation
use music_ra_t.Common.{
  ℕ, zero, suc, ◌+◌, ◌-◌, ◌%◌, ◌^◌, List, [], ◌∷◌, ◌++◌, map, Bool, true, false, ◌&&◌, ◌||◌, not,
  Option, none, some, length, get_elem?, set, ltb, leb, ◌==◌, if◌then◌else◌, add_u64, sub_u64,
  add_u32, has_flag, set_flag,
}
use music_ra_t.Common.Floats.{Floats}
use music_ra_t.Audio.{
  AudioBlock, clear_audio_channels, mark_invalid_audio_block, audio_block_silence,
  audio_block_end_of_stream, audio_block_underrun, audio_block_discontinuity,
}
use music_ra_t.Protocol.{Block, DeckControlEvent}
use music_ra_t.Varispeed.{Renderer}
use music_ra_t.Varispeed.Chunks.{
  View, Chunk, find_chunk, valid_request, front_audio, find_final_end, chunk_end,
}
use music_ra_t.Varispeed.Controls.{apply_control, wrap_loop_position}
use music_ra_t.Varispeed.Frames.{
  initialize_output, append_silent_frame, fill_silence, fill_rates, next_rate, sample_frame,
}

-- What a rendering works on.
pub record Session (F : Type 0) : Type 0 where
  pub renderer : Renderer F
  pub output : AudioBlock F
  pub rates : List F
  pub source_frames_rendered : ℕ
  pub silent_frames : ℕ
  pub reached_end : Bool

module _ {F : Type 0} where
  -- `publish_rate`; a write to the empty list is none.
  pub publish_rate : List F → ℕ → F → List F
  publish_rate rates frame rate = set rates frame rate

  -- The loop of `controls_are_valid`, from the second event on.
  pub offsets_ascend : ℕ → ℕ → List (DeckControlEvent F) → Bool
  offsets_ascend frame_count previous [] = true
  offsets_ascend frame_count previous (e ∷ es) =
      not (leb frame_count e.sample_offset)
      && not (ltb e.sample_offset previous)
      && offsets_ascend frame_count e.sample_offset es

  -- `controls_are_valid`, and the controls that it lets through. No offset is below the first 0.
  pub valid_controls : Option (Block (DeckControlEvent F)) → ℕ → List (DeckControlEvent F)
  valid_controls none frame_count = []
  valid_controls (some b) frame_count =
      if offsets_ascend frame_count 0 b.events then b.events else []

module _ (fl : Floats) where
  open fl use {F, le, add, mul, div, of_ℕ}

  silent_frame : ℕ → Session F → Session F
  unfolding publish_rate
  silent_frame frame s = record s {
    output = append_silent_frame fl s.output;
    rates = publish_rate s.rates frame s.renderer.current_rate;
    silent_frames = add_u32 s.silent_frames 1;
  }

  -- No frame could be read: the end of the stream, or an underrun.
  starved_frame : F → ℕ → Session F → Session F
  unfolding silent_frame
  starved_frame final_end frame s =
      let t = silent_frame frame s in
      if le final_end t.renderer.media_position
      then record t {
        output = record (t.output) { flags = set_flag t.output.flags audio_block_end_of_stream };
        reached_end = true;
      }
      else record t {
        output = record (t.output) { flags = set_flag t.output.flags audio_block_underrun };
      }

  module _ (chunks : List (Chunk F)) where
    -- The controls of a frame; those left over come with it.
    pub apply_due :
        ℕ → List (DeckControlEvent F) → Renderer F → ℕ → List (DeckControlEvent F) × Renderer F × ℕ
    apply_due frame [] r flags = ([], r, flags)
    apply_due frame (e ∷ es) r flags =
        let (q, f) = apply_control fl chunks e r flags in
        let rest = apply_due frame es q f in
        if e.sample_offset == frame then rest else (e ∷ es, r, flags)

    wrapped : Session F → Session F
    wrapped s =
        let (r, flags) = wrap_loop_position fl s.renderer s.output.flags in
        record s { renderer = r; output = record (s.output) { flags = flags } }

    -- `ratio` is the source's sample rate, `output_rate` that of the output.
    advanced : F → F → ℕ → AudioBlock F → Session F → Session F
    unfolding publish_rate wrapped
    advanced ratio output_rate frame o s =
        let r = next_rate fl s.renderer in
        wrapped (record s {
          renderer = record r {
            media_position = add r.media_position (div (mul r.current_rate ratio) output_rate);
          };
          output = o;
          rates = publish_rate s.rates frame r.current_rate;
          source_frames_rendered = add_u32 s.source_frames_rendered 1;
        })

    played : F → F → F → ℕ → Session F → Option (AudioBlock F) → Session F
    unfolding advanced starved_frame
    played source_rate output_rate final_end frame s none = starved_frame final_end frame s
    played source_rate output_rate final_end frame s (some o) =
        advanced source_rate output_rate frame o s

    -- One round of the loop, after its controls.
    pub render_frame : F → F → F → ℕ → Session F → Session F
    unfolding played silent_frame wrapped
    render_frame source_rate output_rate final_end frame s =
        let t = wrapped s in
        if not t.renderer.playing
        then silent_frame frame t
        else played source_rate output_rate final_end frame t
            (sample_frame fl chunks t.renderer t.output)

    controlled : Session F → Renderer F → ℕ → Session F
    controlled s r flags = record s { renderer = r; output = record (s.output) { flags = flags } }

    -- The loop, from `frame` on with `n` frames left.
    pub render_frames : F → F → F → ℕ → ℕ → List (DeckControlEvent F) → Session F → Session F
    unfolding controlled
    render_frames source_rate output_rate final_end zero frame events s = s
    render_frames source_rate output_rate final_end (suc n) frame events s =
        let (rest, r, flags) = apply_due frame events s.renderer s.output.flags in
        render_frames source_rate output_rate final_end n (suc frame) rest
          (render_frame source_rate output_rate final_end frame (controlled s r flags))
