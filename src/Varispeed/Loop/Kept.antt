-- ===== src/Varispeed/Loop/Kept.antt =====
-- A round of the loop of `render` adds one frame to each channel and to one of the counts, and keeps
-- what the members of the renderer have in common; so does the loop.
use music_ra_t.Common.{
  ℕ, zero, suc, ◌+◌, ◌^◌, ◌<◌, ◌≡◌, List, [], ◌∷◌, Option, none, some, arith, add_u32,
}
use mathlib.Core.Path.{subst}
use music_ra_t.Common.Floats.{Floats}
use music_ra_t.Audio.{AudioBlock}
use music_ra_t.Protocol.{DeckControlEvent}
use music_ra_t.Varispeed.{Renderer, valid_rate}
use music_ra_t.Varispeed.Chunks.{Chunk, find_chunk}
use music_ra_t.Varispeed.Consistent.{IsConsistent}
use music_ra_t.Varispeed.Controls.{apply_control}
use music_ra_t.Varispeed.Controls.Consistent.{
  apply_control-IsConsistent, wrap_loop_position-IsConsistent,
}
use music_ra_t.Varispeed.Frames.{next_rate, sample_frame}
use music_ra_t.Varispeed.Frames.Sizes.{
  Target, IsFilledOf, IsFilledIf, append_silent_frame-IsFilled, sample_frame-IsFilled,
}
use music_ra_t.Varispeed.Loop.{
  Session, silent_frame, starved_frame, apply_due, wrapped, advanced, played, render_frame,
  controlled, render_frames, publish_rate,
}

-- After `k` of fewer than 2^32 frames, of the target.
pub record IsAfter (fl : Floats) (n : Target fl.F) (k : ℕ) (r : Renderer fl.F) (o : AudioBlock fl.F)
    (rendered silent : ℕ) : Type 0 where
  pub consistent : IsConsistent fl r
  pub filled : IsFilledOf n k o
  pub counted : rendered + silent ≡ k

abbrev pub IsAfterOf : (fl : Floats) → Target fl.F → ℕ → Session fl.F → Type 0
IsAfterOf fl n k s = IsAfter fl n k s.renderer s.output s.source_frames_rendered s.silent_frames

module _ (fl : Floats) (n : Target fl.F) where
  open fl use {F, le, add, mul, div}

  silent_frame-IsAfter :
      (k frame : ℕ) (s : Session F)
      → suc k < 2 ^ 32
      → IsAfterOf fl n k s
      → IsAfterOf fl n (suc k) (silent_frame fl frame s)
  unfolding silent_frame
  silent_frame-IsAfter k frame s b h = record {
    consistent = h.consistent;
    filled = append_silent_frame-IsFilled fl n k s.output h.filled;
    counted = ground (arith, h.counted);
  }

  starved_frame-IsAfter :
      (k frame : ℕ) (x : F) (s : Session F)
      → suc k < 2 ^ 32
      → IsAfterOf fl n k s
      → IsAfterOf fl n (suc k) (starved_frame fl x frame s)
  unfolding starved_frame
  starved_frame-IsAfter k frame x s b h = ground (arith, silent, flagged)
    where
      silent : IsAfterOf fl n (suc k) (silent_frame fl frame s)
      silent = silent_frame-IsAfter k frame s b h

      flagged :
          (flags : ℕ)
          → let t = silent_frame fl frame s in
            IsAfter fl n
              (suc k)
              t.renderer
              (record (t.output) { flags = flags })
              t.source_frames_rendered
              t.silent_frames
      flagged flags = record {
        consistent = silent.consistent;
        filled = silent.filled;
        counted = silent.counted;
      }

  next_rate-IsConsistent : (r : Renderer F) → IsConsistent fl r → IsConsistent fl (next_rate fl r)
  unfolding next_rate valid_rate
  next_rate-IsConsistent r c = record {
    loop = ground (arith, c.loop);
    cue = ground (arith, c.cue);
    rate = record {
      target_valid = ground (arith, c.rate.target_valid);
      settled = λ e. ground (arith, c.rate.settled);
    };
  }

  module _ (chunks : List (Chunk F)) where
    wrapped-IsAfter :
        (k : ℕ) (s : Session F) → IsAfterOf fl n k s → IsAfterOf fl n k (wrapped fl chunks s)
    unfolding wrapped
    wrapped-IsAfter k s h = record {
      consistent = wrap_loop_position-IsConsistent fl s.renderer s.output.flags h.consistent;
      filled = h.filled;
      counted = h.counted;
    }

    moved :
        (x : F) (r : Renderer F)
        → IsConsistent fl r
        → IsConsistent fl (record r { media_position = x })
    unfolding valid_rate
    moved x r c = record { loop = c.loop; cue = c.cue; rate = c.rate }

    advanced-IsAfter :
        (k frame : ℕ) (x y : F) (o : AudioBlock F) (s : Session F)
        → suc k < 2 ^ 32
        → IsAfterOf fl n k s
        → IsFilledOf n (suc k) o
        → IsAfterOf fl n (suc k) (advanced fl chunks x y frame o s)
    unfolding advanced
    advanced-IsAfter k frame x y o s b h f =
        let r = next_rate fl s.renderer in
        wrapped-IsAfter (suc k)
          (record s {
            renderer = record r {
              media_position = add r.media_position (div (mul r.current_rate x) y);
            };
            output = o;
            rates = publish_rate s.rates frame r.current_rate;
            source_frames_rendered = add_u32 s.source_frames_rendered 1;
          })
          (record {
            consistent = moved _ _ (next_rate-IsConsistent s.renderer h.consistent);
            filled = f;
            counted = ground (arith, h.counted);
          })

    -- The chunks that are found have the channels of the target.
    abbrev pub HaveChannels : Type 0
    HaveChannels =
        (x : ℕ) (c : Chunk F) → find_chunk chunks x ≡ some c → c.audio.channel_count ≡ n.channels

    played-IsAfter :
        (k frame : ℕ) (x y z : F) (s : Session F) (o : Option (AudioBlock F))
        → suc k < 2 ^ 32
        → IsAfterOf fl n k s
        → IsFilledIf fl n (suc k) o
        → IsAfterOf fl n (suc k) (played fl chunks x y z frame s o)
    unfolding played
    played-IsAfter k frame x y z s none b h f = starved_frame-IsAfter k frame z s b h
    played-IsAfter k frame x y z s (some o) b h f = advanced-IsAfter k frame x y o s b h f

    render_frame-IsAfter :
        (k frame : ℕ) (x y z : F) (s : Session F)
        → suc k < 2 ^ 32
        → HaveChannels
        → IsAfterOf fl n k s
        → IsAfterOf fl n (suc k) (render_frame fl chunks x y z frame s)
    unfolding render_frame
    render_frame-IsAfter k frame x y z s b u h = ground (
      arith,
      silent_frame-IsAfter k frame (wrapped fl chunks s) b w,
      played-IsAfter k frame x y z (wrapped fl chunks s)
          (sample_frame fl chunks (wrapped fl chunks s).renderer (wrapped fl chunks s).output) b w
          (sample_frame-IsFilled fl n k chunks (wrapped fl chunks s).renderer
            (wrapped fl chunks s).output u w.filled),
    )
      where
        w : IsAfterOf fl n k (wrapped fl chunks s)
        w = wrapped-IsAfter k s h

    pub apply_due-IsConsistent :
        (frame : ℕ) (es : List (DeckControlEvent F)) (r : Renderer F) (flags : ℕ)
        → IsConsistent fl r
        → IsConsistent fl (apply_due fl chunks frame es r flags).1
    unfolding apply_due
    apply_due-IsConsistent frame [] r flags c = c
    apply_due-IsConsistent frame (e ∷ es) r flags c = ground (
      arith,
      c,
      apply_due-IsConsistent frame es (apply_control fl chunks e r flags).0
          (apply_control fl chunks e r flags).1 (apply_control-IsConsistent fl chunks e r flags c),
    )

    pub render_frames-IsAfter :
        (m k j frame : ℕ) (x y z : F) (es : List (DeckControlEvent F)) (s : Session F)
        → m + k ≡ j
        → j < 2 ^ 32
        → HaveChannels
        → IsAfterOf fl n k s
        → IsAfterOf fl n j (render_frames fl chunks x y z m frame es s)
    unfolding render_frames controlled
    render_frames-IsAfter zero k j frame x y z es s q b u h =
        subst (λ i. IsAfterOf fl n i s) (omega arith) h
    render_frames-IsAfter (suc m) k j frame x y z es s q b u h =
        render_frames-IsAfter m (suc k) j (suc frame) x y z _ _ (omega arith) b u (
          render_frame-IsAfter k frame x y z _ (omega arith) u (record {
            consistent = apply_due-IsConsistent frame es s.renderer s.output.flags h.consistent;
            filled = h.filled;
            counted = h.counted;
          }))
