-- ===== src/Varispeed/Rendering/Generation.antt =====
-- Nor do the two `render` methods, and they report a mismatch only over chunks of another generation.
use music_ra_t.Common.{
  ℕ, zero, suc, ◌≡◌, refl, ◌∙◌, List, [], ◌∷◌, Option, none, some, false, arith, All,
}
use music_ra_t.Common.Floats.{Floats}
use music_ra_t.Audio.{AudioBlock}
use music_ra_t.Protocol.{Block, DeckControlEvent}
use music_ra_t.Varispeed.{Renderer}
use music_ra_t.Varispeed.Chunks.{Chunk, View, find_final_end}
use music_ra_t.Varispeed.Frames.{initialize_output}
use music_ra_t.Varispeed.Chunks.Uniform.{OfGeneration, valid_request-OfGeneration}
use music_ra_t.Varispeed.Loop.{valid_controls}
use music_ra_t.Varispeed.Loop.Generation.{generation-render_frames, generation-apply_due}
use music_ra_t.Varispeed.Rendering.{
  any_of_other_generation, render, render_chunks, render_underrun, refused, mismatched, finished,
  begun, front_rate, underrun_frames, underrun,
}

module _ (fl : Floats) where
  open fl use {F}

  generation-render_chunks :
      (chunks : Option (List (Chunk F))) (x : F) (frames : ℕ)
      (controls : Option (Block (DeckControlEvent F))) (r : Renderer F) (o : AudioBlock F)
      (rates : List F)
      → (render_chunks fl chunks x frames controls r o rates).renderer.generation ≡ r.generation
  unfolding render_chunks refused mismatched finished begun
  generation-render_chunks none x frames controls r o rates = refl
  generation-render_chunks (some chunks) x frames controls r o rates = ground (
    arith,
    generation-render_frames fl chunks frames 0 (front_rate fl chunks) x (find_final_end fl chunks)
        (valid_controls controls frames) (begun fl r o rates),
  )

  module _ (max_channels max_frames : ℕ) where
    pub generation-render :
        (views : List (View F)) (x : F) (frames timestamp_ns sequence_number : ℕ)
        (controls : Option (Block (DeckControlEvent F))) (r : Renderer F) (o : AudioBlock F)
        (rates : List F)
        → (render fl max_channels max_frames views x frames timestamp_ns sequence_number controls r
            o rates).renderer.generation
          ≡ r.generation
    unfolding render
    generation-render views x frames ts sn controls r o rates =
        generation-render_chunks _ x frames controls r _ rates

    generation-underrun_frames :
        (n frame : ℕ) (es : List (DeckControlEvent F)) (r : Renderer F) (o : AudioBlock F)
        → (underrun_frames fl max_channels max_frames n frame es r o).0.generation ≡ r.generation
    unfolding underrun_frames
    generation-underrun_frames zero frame es r o = refl
    generation-underrun_frames (suc n) frame es r o =
        generation-underrun_frames n (suc frame) _ _ _
        ∙ generation-apply_due fl [] frame es r o.flags

    pub generation-render_underrun :
        (channels : ℕ) (x : F) (frames timestamp_ns sequence_number : ℕ)
        (controls : Option (Block (DeckControlEvent F))) (r : Renderer F) (o : AudioBlock F)
        → (render_underrun fl max_channels max_frames channels x frames timestamp_ns sequence_number
            controls r o).renderer.generation
          ≡ r.generation
    unfolding render_underrun refused underrun
    generation-render_underrun channels x frames ts sn controls r o = ground (
      arith,
      generation-underrun_frames frames 0 (valid_controls controls frames) r
          (record (initialize_output fl none x frames ts sn o) { channel_count = channels }),
    )

    none_of_other_generation :
        (g : ℕ) (cs : List (Chunk F))
        → All (λ c. c.generation ≡ g) cs
        → any_of_other_generation fl g cs ≡ false
    unfolding any_of_other_generation
    none_of_other_generation g [] h = refl
    none_of_other_generation g (c ∷ cs) h = ground (arith, h.0, none_of_other_generation g cs h.1)

    generation_mismatch-render_chunks :
        (g : ℕ) (chunks : Option (List (Chunk F))) (x : F) (frames : ℕ)
        (controls : Option (Block (DeckControlEvent F))) (r : Renderer F) (o : AudioBlock F)
        (rates : List F)
        → OfGeneration fl max_channels max_frames g chunks
        → r.generation ≡ g
        → (render_chunks fl chunks x frames controls r o rates).result.generation_mismatch ≡ false
    unfolding render_chunks refused finished
    generation_mismatch-render_chunks g none x frames controls r o rates h e = refl
    generation_mismatch-render_chunks g (some cs) x frames controls r o rates h e =
        ground (arith, e, none_of_other_generation g cs h)

    -- Over views of the renderer's generation no mismatch is reported.
    pub generation_mismatch-render :
        (views : List (View F)) (x : F) (frames timestamp_ns sequence_number : ℕ)
        (controls : Option (Block (DeckControlEvent F))) (r : Renderer F) (o : AudioBlock F)
        (rates : List F)
        → All (λ v. v.generation ≡ r.generation) views
        → (render fl max_channels max_frames views x frames timestamp_ns sequence_number controls r
            o rates).result.generation_mismatch
          ≡ false
    unfolding render
    generation_mismatch-render views x frames ts sn controls r o rates h =
        generation_mismatch-render_chunks r.generation _ x frames controls r _ rates
          (valid_request-OfGeneration fl max_channels max_frames r.generation x frames views h) refl

    pub generation_mismatch-render_underrun :
        (channels : ℕ) (x : F) (frames timestamp_ns sequence_number : ℕ)
        (controls : Option (Block (DeckControlEvent F))) (r : Renderer F) (o : AudioBlock F)
        → (render_underrun fl max_channels max_frames channels x frames timestamp_ns sequence_number
            controls r o).result.generation_mismatch
          ≡ false
    unfolding render_underrun refused underrun
    generation_mismatch-render_underrun channels x frames ts sn controls r o = ground arith
