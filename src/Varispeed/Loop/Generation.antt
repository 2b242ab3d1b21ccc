-- ===== src/Varispeed/Loop/Generation.antt =====
-- Nor does the loop of `render`.
use music_ra_t.Common.{ℕ, zero, suc, ◌≡◌, refl, ◌∙◌, List, [], ◌∷◌, Option, none, some, arith}
use music_ra_t.Common.Floats.{Floats}
use music_ra_t.Audio.{AudioBlock}
use music_ra_t.Protocol.{DeckControlEvent}
use music_ra_t.Varispeed.{Renderer}
use music_ra_t.Varispeed.Chunks.{Chunk}
use music_ra_t.Varispeed.Controls.{apply_control}
use music_ra_t.Varispeed.Controls.Generation.{
  generation-apply_control, generation-wrap_loop_position,
}
use music_ra_t.Varispeed.Frames.{next_rate, sample_frame}
use music_ra_t.Varispeed.Loop.{
  Session, silent_frame, starved_frame, apply_due, wrapped, advanced, played, render_frame,
  controlled, render_frames,
}

module _ (fl : Floats) (chunks : List (Chunk fl.F)) where
  open fl use {F}

  generation-wrapped :
      (s : Session F) → (wrapped fl chunks s).renderer.generation ≡ s.renderer.generation
  unfolding wrapped
  generation-wrapped s = generation-wrap_loop_position fl s.renderer s.output.flags

  generation-next_rate : (r : Renderer F) → (next_rate fl r).generation ≡ r.generation
  unfolding next_rate
  generation-next_rate r = ground arith

  generation-advanced :
      (x y : F) (frame : ℕ) (o : AudioBlock F) (s : Session F)
      → (advanced fl chunks x y frame o s).renderer.generation ≡ s.renderer.generation
  unfolding advanced wrapped
  generation-advanced x y frame o s =
      generation-wrap_loop_position fl _ _ ∙ generation-next_rate s.renderer

  generation-played :
      (x y z : F) (frame : ℕ) (s : Session F) (o : Option (AudioBlock F))
      → (played fl chunks x y z frame s o).renderer.generation ≡ s.renderer.generation
  unfolding played starved_frame silent_frame
  generation-played x y z frame s none = ground arith
  generation-played x y z frame s (some o) = generation-advanced x y frame o s

  generation-render_frame :
      (x y z : F) (frame : ℕ) (s : Session F)
      → (render_frame fl chunks x y z frame s).renderer.generation ≡ s.renderer.generation
  unfolding render_frame silent_frame
  generation-render_frame x y z frame s = ground (
    arith,
    generation-wrapped s,
    generation-played x y z frame (wrapped fl chunks s)
        (sample_frame fl chunks (wrapped fl chunks s).renderer (wrapped fl chunks s).output),
  )

  pub generation-apply_due :
      (frame : ℕ) (es : List (DeckControlEvent F)) (r : Renderer F) (flags : ℕ)
      → (apply_due fl chunks frame es r flags).1.generation ≡ r.generation
  unfolding apply_due
  generation-apply_due frame [] r flags = refl
  generation-apply_due frame (e ∷ es) r flags = ground (
    arith,
    generation-apply_control fl chunks e r flags,
    generation-apply_due frame es (apply_control fl chunks e r flags).0
        (apply_control fl chunks e r flags).1,
  )

  pub generation-render_frames :
      (n frame : ℕ) (x y z : F) (es : List (DeckControlEvent F)) (s : Session F)
      → (render_frames fl chunks x y z n frame es s).renderer.generation ≡ s.renderer.generation
  unfolding render_frames controlled
  generation-render_frames zero frame x y z es s = refl
  generation-render_frames (suc n) frame x y z es s =
      generation-render_frames n (suc frame) x y z _ _
      ∙ generation-render_frame x y z frame _
      ∙ generation-apply_due frame es s.renderer s.output.flags
