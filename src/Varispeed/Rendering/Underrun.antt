-- ===== src/Varispeed/Rendering/Underrun.antt =====
-- What `render_underrun` hands out.
use music_ra_t.Common.{
  ℕ, zero, suc, ◌+◌, ◌<◌, ◌≡◌, ◌⊎◌, inl, inr, List, [], false, ◌||◌, not, Option, none, arith,
  Bool-cases, ltb, ◌==◌,
}
use mathlib.Core.Path.{subst}
use music_ra_t.Common.Floats.{Floats}
use music_ra_t.Audio.{AudioBlock}
use music_ra_t.Protocol.{Block, DeckControlEvent}
use music_ra_t.Varispeed.{Renderer}
use music_ra_t.Varispeed.Consistent.{IsConsistent}
use music_ra_t.Varispeed.Frames.{initialize_output}
use music_ra_t.Varispeed.Frames.Sizes.{
  Target, IsFilledOf, append_silent_frame-IsFilled, initialize_output-IsFilled,
}
use music_ra_t.Varispeed.Loop.Kept.{apply_due-IsConsistent}
use music_ra_t.Varispeed.Rendering.Shape.{
  IsDelivered, IsRefused, IsFeasible, filled-IsValidBlock, refused-IsRefused,
}
use music_ra_t.Varispeed.Loop.{valid_controls}
use music_ra_t.Varispeed.Rendering.{render_underrun, underrun_frames, underrun}

module _ (fl : Floats) (max_channels max_frames : ℕ) where
  open fl use {F, of_ℕ, is_finite, le}

  abbrev Kept : Target F → ℕ → Renderer F × AudioBlock F → Type 0
  Kept n k (r, o) = IsConsistent fl r × IsFilledOf n k o

  underrun_frames-Kept :
      (n : Target F) (m k j frame : ℕ) (es : List (DeckControlEvent F)) (r : Renderer F)
      (o : AudioBlock F)
      → m + k ≡ j
      → IsConsistent fl r
      → IsFilledOf n k o
      → Kept n j (underrun_frames fl max_channels max_frames m frame es r o)
  unfolding underrun_frames
  underrun_frames-Kept n zero k j frame es r o q c h =
      (c, subst (λ i. IsFilledOf n i o) (omega arith) h)
  underrun_frames-Kept n (suc m) k j frame es r o q c h =
      underrun_frames-Kept n m (suc k) j (suc frame) _ _ _ (omega arith)
        (apply_due-IsConsistent fl n [] frame es r o.flags c)
        (append_silent_frame-IsFilled fl n k _
          (record { count = h.count; frames = h.frames; same_rate = h.same_rate; sizes = h.sizes }))

  underrun-IsDelivered :
      (n : Target F) (p : Renderer F × AudioBlock F) (position : F)
      → IsFeasible fl max_channels max_frames n
      → Kept n n.frames p
      → IsDelivered fl max_channels max_frames n.frames
          (underrun fl max_channels max_frames n.frames p position)
  unfolding underrun
  underrun-IsDelivered n (r, o) position v (c, h) = record {
    block = filled-IsValidBlock fl max_channels max_frames n _ v h;
    frame_count = h.frames;
    counted = omega arith;
    consistent = c;
  }

  abbrev pub IsAccepted : Target F → Type 0
  IsAccepted n = IsFeasible fl max_channels max_frames n × (0 < n.frames)

  -- Within the limits, a block of silence is delivered; otherwise the call is refused.
  pub render_underrun_lem :
      (n : Target F) (timestamp_ns sequence_number : ℕ)
      (controls : Option (Block (DeckControlEvent F))) (r : Renderer F) (o : AudioBlock F)
      → IsConsistent fl r
      → let out =
          render_underrun fl max_channels max_frames n.channels n.rate n.frames timestamp_ns
            sequence_number controls r o in
        (IsAccepted n × IsDelivered fl max_channels max_frames n.frames out)
        ⊎ ((¬ IsAccepted n) × IsRefused fl max_channels max_frames r out)
  unfolding render_underrun
  render_underrun_lem n ts sn controls r o c =
      elim (Bool-cases (
        not (is_finite n.rate)
        || le n.rate (of_ℕ 0)
        || ltb max_channels n.channels
        || n.frames == 0
        || ltb max_frames n.frames)) [
          | inl t ↦ inr (
            λ a. ground (
              arith, t, a.0.finite_rate, a.0.positive_rate, a.0.channels_fit, a.0.frames_fit, a.1,
            ),
            rw t (refused-IsRefused fl max_channels max_frames r _ []),
          )
          | inr t ↦ inl (
            (feasible t, ground (arith, t)),
            rw t (underrun-IsDelivered n state r.media_position (feasible t) kept),
          )
        ]
    where
      feasible :
          (not (is_finite n.rate)
              || le n.rate (of_ℕ 0)
              || ltb max_channels n.channels
              || n.frames == 0
              || ltb max_frames n.frames)
            ≡ false
          → IsFeasible fl max_channels max_frames n
      feasible t = record {
        finite_rate = ground (arith, t);
        positive_rate = ground (arith, t);
        channels_fit = ground (arith, t);
        frames_fit = ground (arith, t);
      }

      state : Renderer F × AudioBlock F
      state =
          underrun_frames fl max_channels max_frames n.frames 0 (valid_controls controls n.frames) r
            (record (initialize_output fl none n.rate n.frames ts sn o) {
              channel_count = n.channels;
            })

      kept : Kept n n.frames state
      kept =
          underrun_frames-Kept n n.frames 0 n.frames 0 _ r _ (omega arith) c
            (initialize_output-IsFilled fl n none ts sn o)
