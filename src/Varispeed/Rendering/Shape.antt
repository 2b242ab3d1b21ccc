-- ===== src/Varispeed/Rendering/Shape.antt =====
-- What the two `render` methods hand out.
use music_ra_t.Common.{
  ℕ, ◌+◌, ◌^◌, ◌<◌, ◌≤◌, ◌≡◌, ◌⊎◌, refl, inl, inr, List, true, false, ◌&&◌, not, Option, none, some,
  arith, length, Bool-cases, ltb, ◌==◌, All, All-map, has_flag,
}
use mathlib.Core.Path.{subst}
use music_ra_t.Common.Floats.{Floats}
use music_ra_t.Audio.{AudioBlock, mark_invalid_audio_block, audio_block_invalid}
use music_ra_t.Audio.Valid.{IsValidBlock}
use music_ra_t.Protocol.{Block, DeckControlEvent}
use music_ra_t.Varispeed.{Renderer, valid_rate}
use music_ra_t.Varispeed.Chunks.{View, Chunk, valid_request, front_audio, find_final_end}
use music_ra_t.Varispeed.Chunks.Uniform.{IsRequest, valid_request-IsRequest, find_chunk-All}
use music_ra_t.Varispeed.Consistent.{IsConsistent}
use music_ra_t.Varispeed.Frames.{initialize_output, fill_silence}
use music_ra_t.Varispeed.Frames.Sizes.{
  Target, IsFilledOf, fill_silence-IsFilled, initialize_output_front-IsFilled,
}
use music_ra_t.Varispeed.Loop.Kept.{IsAfterOf, render_frames-IsAfter}
use music_ra_t.Varispeed.Loop.{Session, valid_controls, render_frames}
use music_ra_t.Varispeed.Rendering.{
  Rendered, render, render_chunks, refused, mismatched, finished, begun, front_rate,
}

module _ (fl : Floats) (max_channels max_frames : ℕ) where
  open fl use {F, of_ℕ, is_finite, le}

  -- A valid block of the frames that were asked for, each counted once, and a consistent renderer.
  pub record IsDelivered (frames : ℕ) (out : Rendered fl) : Type 0 where
    pub block : IsValidBlock fl max_channels max_frames out.output
    pub frame_count : out.output.frame_count ≡ frames
    pub counted : out.result.source_frames_rendered + out.result.silent_frames ≡ frames
    pub consistent : IsConsistent fl out.renderer

  -- The invalid block, and the renderer as it was.
  pub record IsRefused (r : Renderer F) (out : Rendered fl) : Type 0 where
    pub invalid : has_flag out.output.flags audio_block_invalid ≡ true
    pub empty : out.output.channel_count + out.output.frame_count ≡ 0
    pub nothing : out.result.source_frames_rendered + out.result.silent_frames ≡ 0
    pub same : out.renderer ≡ r

  pub refused-IsRefused :
      (r : Renderer F) (o : AudioBlock F) (rates : List F) → IsRefused r (refused fl r o rates)
  unfolding refused mark_invalid_audio_block
  refused-IsRefused r o rates = record {
    invalid = ground arith;
    empty = omega arith;
    nothing = omega arith;
    same = refl;
  }

  -- A target within the limits of the build.
  pub record IsFeasible (n : Target F) : Type 0 where
    pub finite_rate : is_finite n.rate ≡ true
    pub positive_rate : le n.rate (of_ℕ 0) ≡ false
    pub channels_fit : n.channels ≤ max_channels
    pub frames_fit : n.frames ≤ max_frames

  pub filled-IsValidBlock :
      (n : Target F) (o : AudioBlock F)
      → IsFeasible n
      → IsFilledOf n n.frames o
      → IsValidBlock fl max_channels max_frames o
  filled-IsValidBlock n o v h = record {
    finite_rate = rw h.same_rate v.finite_rate;
    positive_rate = rw h.same_rate v.positive_rate;
    channels_fit = omega (arith, h.count, v.channels_fit);
    frames_fit = omega (arith, h.frames, v.frames_fit);
    sizes = rw (h.count, h.frames) h.sizes;
  }

  finished-IsDelivered :
      (n : Target F) (s : Session F)
      → IsFeasible n
      → IsAfterOf fl n n.frames s
      → IsDelivered n.frames (finished fl s)
  unfolding finished
  finished-IsDelivered n s v h = record {
    block = filled-IsValidBlock n _ v h.filled;
    frame_count = h.filled.frames;
    counted = h.counted;
    consistent = h.consistent;
  }

  begun-IsAfter :
      (n : Target F) (r : Renderer F) (o : AudioBlock F) (rates : List F)
      → IsConsistent fl r
      → IsFilledOf n 0 o
      → IsAfterOf fl n 0 (begun fl r o rates)
  unfolding begun valid_rate
  begun-IsAfter n r o rates c h = record {
    consistent = record { loop = c.loop; cue = c.cue; rate = c.rate };
    filled = h;
    counted = omega arith;
  }

  mismatched-IsDelivered :
      (n : Target F) (r : Renderer F) (o : AudioBlock F) (rates : List F)
      → IsFeasible n
      → IsConsistent fl r
      → IsFilledOf n 0 o
      → IsDelivered n.frames (mismatched fl n.frames r o rates)
  unfolding mismatched
  mismatched-IsDelivered n r o rates v c h = record {
    block = filled-IsValidBlock n _ v full;
    frame_count = full.frames;
    counted = omega arith;
    consistent = c;
  }
    where
      full : IsFilledOf n n.frames (fill_silence fl n.frames o)
      full =
          subst (λ j. IsFilledOf n j (fill_silence fl n.frames o)) (omega arith)
            (fill_silence-IsFilled fl n n.frames 0 o h)

  chunks_deliver :
      (n : Target F) (chunks : List (Chunk F)) (controls : Option (Block (DeckControlEvent F)))
      (r : Renderer F) (o : AudioBlock F) (rates : List F)
      → IsFeasible n
      → n.frames < 2 ^ 32
      → All (λ c. c.audio.channel_count ≡ n.channels) chunks
      → IsConsistent fl r
      → IsFilledOf n 0 o
      → (length rates ≡ 0) ⊎ (n.frames ≤ length rates)
      → IsDelivered n.frames (render_chunks fl (some chunks) n.rate n.frames controls r o rates)
  unfolding render_chunks
  chunks_deliver n chunks controls r o rates v b u c h long =
      ground (arith, long, mismatched-IsDelivered n r o rates v c h, played)
    where
      session : Session F
      session =
          render_frames fl chunks (front_rate fl chunks) n.rate (find_final_end fl chunks) n.frames
            0 (valid_controls controls n.frames) (begun fl r o rates)

      played : IsDelivered n.frames (finished fl session)
      played = finished-IsDelivered n session v (
          render_frames-IsAfter fl n chunks n.frames 0 n.frames 0 (front_rate fl chunks) n.rate
            (find_final_end fl chunks) (valid_controls controls n.frames) (begun fl r o rates)
            (omega arith) b (λ x d e. find_chunk-All fl max_channels max_frames _ chunks x d u e)
            (begun-IsAfter n r o rates c h))

  -- What comes out, by the chunks that `valid_request` gives: the span of the rates is not used, or is
  -- as long as the frames, or too short.
  abbrev pub Outcome : Option (List (Chunk F)) → ℕ → Renderer F → List F → Rendered fl → Type 0
  Outcome none frames r rates out = IsRefused r out
  Outcome (some chunks) frames r rates out =
      (((length rates ≡ 0) ⊎ (frames ≤ length rates)) × IsDelivered frames out)
      ⊎ ((0 < length rates) × (length rates < frames) × IsRefused r out)

  render_chunks-Outcome :
      (views : List (View F)) (rate : F) (frames timestamp_ns sequence_number : ℕ)
      (controls : Option (Block (DeckControlEvent F))) (r : Renderer F) (o : AudioBlock F)
      (rates : List F) (request : Option (List (Chunk F)))
      → frames < 2 ^ 32
      → IsConsistent fl r
      → valid_request fl max_channels max_frames views rate frames ≡ request
      → Outcome request frames r rates (
          render_chunks fl request rate frames controls r
            (initialize_output fl (front_audio views) rate frames timestamp_ns sequence_number o)
            rates)
  unfolding render_chunks
  render_chunks-Outcome views rate frames ts sn controls r o rates none b c e =
      refused-IsRefused r _ rates
  render_chunks-Outcome views rate frames ts sn controls r o rates (some chunks) b c e =
      elim (Bool-cases (not (length rates == 0) && ltb (length rates) frames)) [
        | inl t ↦ inr (ground (arith, t), ground (arith, t), rw t (refused-IsRefused r _ rates))
        | inr t ↦ inl (long t, delivered (long t))
      ]
    where
      long :
          (not (length rates == 0) && ltb (length rates) frames) ≡ false
          → (length rates ≡ 0) ⊎ (frames ≤ length rates)
      long t = ground (arith, t)

      q : IsRequest fl max_channels max_frames views rate frames chunks
      q = valid_request-IsRequest fl max_channels max_frames views rate frames chunks e

      target : Target F
      target = record { channels = q.front.channel_count; frames = frames; rate = rate }

      delivered :
          (length rates ≡ 0) ⊎ (frames ≤ length rates)
          → IsDelivered frames (
              render_chunks fl
                (some chunks)
                rate
                frames
                controls
                r
                (initialize_output fl (front_audio views) rate frames ts sn o)
                rates)
      delivered h =
          chunks_deliver target chunks controls r
            (initialize_output fl (front_audio views) rate frames ts sn o) rates
            (record {
              finite_rate = q.finite_rate;
              positive_rate = q.positive_rate;
              channels_fit = q.channels_fit;
              frames_fit = q.frames_fit;
            })
            b (All-map _ _ chunks (λ d u. u.count) q.uniform) c
            (initialize_output_front-IsFilled fl target (front_audio views) q.front ts sn o
              q.is_front refl)
            h

  -- A request that `valid_request` accepts is delivered, if `rendered_rates` is empty or as long as the
  -- frames; any other is refused.
  pub render_lem :
      (views : List (View F)) (rate : F) (frames timestamp_ns sequence_number : ℕ)
      (controls : Option (Block (DeckControlEvent F))) (r : Renderer F) (o : AudioBlock F)
      (rates : List F)
      → frames < 2 ^ 32
      → IsConsistent fl r
      → Outcome (valid_request fl max_channels max_frames views rate frames) frames r rates (
          render fl max_channels max_frames views rate frames timestamp_ns sequence_number controls
            r o rates)
  unfolding render
  render_lem views rate frames ts sn controls r o rates b c =
      render_chunks-Outcome views rate frames ts sn controls r o rates _ b c refl
