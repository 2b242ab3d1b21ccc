-- ===== src/Varispeed/Frames/Sizes.antt =====
-- Each frame adds one sample to each channel that is in use.
use music_ra_t.Common.{
  ℕ, zero, suc, ◌+◌, ◌-◌, ◌≡◌, refl, List, [], ◌∷◌, Option, none, some, arith, length-append,
}
use mathlib.Core.Path.{subst}
use music_ra_t.Common.Floats.{Floats}
use music_ra_t.Audio.{AudioBlock, clear_audio_channels}
use music_ra_t.Audio.Valid.{
  HasSizes, cleared-HasSizes, HasSizes-tail, HasSizes-zero, HasSizes-cons_zero, HasSizes-cons_suc,
}
use music_ra_t.Varispeed.{Renderer}
use music_ra_t.Varispeed.Chunks.{Chunk, find_chunk}
use music_ra_t.Varispeed.Frames.{
  initialize_output, append_frame, append_silent_frame, fill_silence, sample_frame, with_first,
  with_second,
}

module _ {F : Type 0} (k : ℕ) (sample : ℕ → F) (n : ℕ) where
  append_from-HasSizes :
      (m i : ℕ) (cs : List (List F))
      → m ≡ n - i
      → HasSizes m k cs
      → HasSizes m (suc k) (append_frame sample n i cs)
  unfolding append_frame
  append_from-HasSizes m i [] e h = record {
    active = λ j c q p. absurd cc;
    inactive = λ j c q p. absurd cc;
  }
  append_from-HasSizes zero i (c ∷ cs) e h =
      HasSizes-cons_zero (suc k) _ _ (ground (arith, h.inactive 0 c refl (omega arith)))
        (append_from-HasSizes zero (suc i) cs (omega arith) (HasSizes-zero k c cs h))
  append_from-HasSizes (suc m) i (c ∷ cs) e h =
      HasSizes-cons_suc (suc k) m _ _
        (ground (arith, h.active 0 c refl (omega arith), length-append c (sample i ∷ [])))
        (append_from-HasSizes m (suc i) cs (omega arith) (HasSizes-tail k m c cs h))

  pub append_frame-HasSizes :
      (cs : List (List F)) → HasSizes n k cs → HasSizes n (suc k) (append_frame sample n 0 cs)
  append_frame-HasSizes cs h = append_from-HasSizes n 0 cs (omega arith) h

-- The members of the output that `initialize_output` sets for good.
pub record Target (F : Type 0) : Type 0 where
  pub channels : ℕ
  pub frames : ℕ
  pub rate : F

-- A block for the target, of `k` samples so far in each channel in use.
pub record IsFilled {F : Type 0} (n : Target F) (k channel_count frame_count : ℕ) (rate : F)
    (channels : List (List F)) : Type 0 where
  pub count : channel_count ≡ n.channels
  pub frames : frame_count ≡ n.frames
  pub same_rate : rate ≡ n.rate
  pub sizes : HasSizes n.channels k channels

abbrev pub IsFilledOf : {F : Type 0} → Target F → ℕ → AudioBlock F → Type 0
IsFilledOf n k o = IsFilled n k o.channel_count o.frame_count o.sample_rate_hz o.channels

module _ (fl : Floats) (n : Target fl.F) where
  open fl use {F, of_ℕ}

  pub append_silent_frame-IsFilled :
      (k : ℕ) (o : AudioBlock F)
      → IsFilledOf n k o
      → IsFilledOf n (suc k) (append_silent_frame fl o)
  unfolding append_silent_frame
  append_silent_frame-IsFilled k o h = record {
    count = h.count;
    frames = h.frames;
    same_rate = h.same_rate;
    sizes = rw (h.count) (append_frame-HasSizes k (λ i. of_ℕ 0) n.channels o.channels h.sizes);
  }

  pub fill_silence-IsFilled :
      (m k : ℕ) (o : AudioBlock F) → IsFilledOf n k o → IsFilledOf n (m + k) (fill_silence fl m o)
  unfolding fill_silence
  fill_silence-IsFilled zero k o h =
      subst (λ j. IsFilledOf n j (fill_silence fl zero o)) (omega arith) h
  fill_silence-IsFilled (suc m) k o h =
      subst (λ j. IsFilledOf n j (fill_silence fl m (append_silent_frame fl o))) (omega arith)
        (fill_silence-IsFilled m (suc k) _ (append_silent_frame-IsFilled k o h))

  -- The block with one more frame, if the frame was read.
  abbrev pub IsFilledIf : ℕ → Option (AudioBlock F) → Type 0
  IsFilledIf k none = Unit {0}
  IsFilledIf k (some o) = IsFilledOf n k o

  with_second-IsFilled :
      (k frame : ℕ) (x : F) (c : Chunk F) (d : Option (Chunk F × ℕ)) (o : AudioBlock F)
      → c.audio.channel_count ≡ n.channels
      → IsFilledOf n k o
      → IsFilledIf (suc k) (with_second fl frame x c d o)
  unfolding with_second
  with_second-IsFilled k frame x c none o e h = tt
  with_second-IsFilled k frame x c (some (d, second)) o e h = record {
    count = h.count;
    frames = h.frames;
    same_rate = h.same_rate;
    sizes = rw e (append_frame-HasSizes k _ n.channels o.channels h.sizes);
  }

  with_first-IsFilled :
      (k frame : ℕ) (chunks : List (Chunk F)) (r : Renderer F) (c : Option (Chunk F))
      (o : AudioBlock F)
      → ((d : Chunk F) → c ≡ some d → d.audio.channel_count ≡ n.channels)
      → IsFilledOf n k o
      → IsFilledIf (suc k) (with_first fl chunks r frame c o)
  unfolding with_first
  with_first-IsFilled k frame chunks r none o u h = tt
  with_first-IsFilled k frame chunks r (some c) o u h =
      with_second-IsFilled k frame _ c _ o (u c refl) h

  pub sample_frame-IsFilled :
      (k : ℕ) (chunks : List (Chunk F)) (r : Renderer F) (o : AudioBlock F)
      → ((x : ℕ) (c : Chunk F) → find_chunk chunks x ≡ some c → c.audio.channel_count ≡ n.channels)
      → IsFilledOf n k o
      → IsFilledIf (suc k) (sample_frame fl chunks r o)
  unfolding sample_frame
  sample_frame-IsFilled k chunks r o u h = with_first-IsFilled k _ chunks r _ o (λ d e. u _ d e) h

  cleared_again : (m : ℕ) (cs : List (List F)) → HasSizes 0 0 cs → HasSizes m 0 cs
  cleared_again m cs h = record {
    active = λ i c e p. ground (arith, h.inactive i c e (omega arith));
    inactive = λ i c e p. h.inactive i c e (omega arith);
  }

  -- A block that was initialised for the target, over the channels of the target.
  pub initialize_output-IsFilled :
      (front : Option (AudioBlock F)) (timestamp_ns sequence_number : ℕ) (o : AudioBlock F)
      → let out = initialize_output fl front n.rate n.frames timestamp_ns sequence_number o in
        IsFilled n 0 n.channels out.frame_count out.sample_rate_hz out.channels
  unfolding initialize_output clear_audio_channels
  initialize_output-IsFilled front timestamp_ns sequence_number o = record {
    count = refl;
    frames = refl;
    same_rate = refl;
    sizes = cleared_again n.channels _ (cleared-HasSizes fl 0 0 o.channels);
  }

  pub initialize_output_front-IsFilled :
      (front : Option (AudioBlock F)) (b : AudioBlock F) (timestamp_ns sequence_number : ℕ)
      (o : AudioBlock F)
      → front ≡ some b
      → b.channel_count ≡ n.channels
      → IsFilledOf n 0 (initialize_output fl front n.rate n.frames timestamp_ns sequence_number o)
  unfolding initialize_output
  initialize_output_front-IsFilled front b timestamp_ns sequence_number o e q =
      let h = initialize_output-IsFilled front timestamp_ns sequence_number o in
      record {
        count = ground (arith, e, q);
        frames = h.frames;
        same_rate = h.same_rate;
        sizes = h.sizes;
      }
