-- ===== src/Varispeed/Chunks/Uniform.antt =====
-- What `valid_request` accepts.
use music_ra_t.Common.{
  not, ◌||◌, ◌==◌, ltb, ℕ, ◌≤◌, ◌≡◌, refl, inl, inr, List, [], ◌∷◌, true, false, Option, none, some,
  arith, Bool-cases, All,
}
use mathlib.Core.Path.{subst}
use music_ra_t.Common.Floats.{Floats}
use music_ra_t.Audio.{AudioBlock, AudioBlockValidationError}
use music_ra_t.Audio.Valid.{IsValidBlock, validate_audio_block_iff}
use music_ra_t.Varispeed.Chunks.{
  View, Chunk, find_chunk, holds_frame, front_audio, is_uniform, is_no_error, uniform_cons,
  uniform_chunks, request_chunks, valid_request,
}

no_error :
    (e : AudioBlockValidationError) → is_no_error e ≡ true → e ≡ AudioBlockValidationError.no_error
no_error AudioBlockValidationError.no_error h = refl
no_error AudioBlockValidationError.invalid_sample_rate h = absurd cc
no_error AudioBlockValidationError.too_many_channels h = absurd cc
no_error AudioBlockValidationError.too_many_frames h = absurd cc
no_error AudioBlockValidationError.active_channel_size_mismatch h = absurd cc
no_error AudioBlockValidationError.inactive_channel_not_empty h = absurd cc

module _ (fl : Floats) (max_channels max_frames : ℕ) where
  open fl use {F, is_finite, le, eq, of_ℕ}

  -- A valid block with `n` channels at the rate.
  pub record IsUniform (n : ℕ) (rate : F) (b : AudioBlock F) : Type 0 where
    pub valid : IsValidBlock fl max_channels max_frames b
    pub count : b.channel_count ≡ n
    pub same_rate : eq b.sample_rate_hz rate ≡ true

  is_uniform_lem :
      (n : ℕ) (rate : F) (b : AudioBlock F)
      → is_uniform fl max_channels max_frames n rate b ≡ true
      → IsUniform n rate b
  unfolding is_uniform
  is_uniform_lem n rate b h = record {
    valid = (validate_audio_block_iff fl max_channels max_frames b).0 (no_error _ (ground arith));
    count = ground arith;
    same_rate = ground arith;
  }

  -- All chunks of a list are uniform, if there is a list.
  abbrev AllIf : ℕ → F → Option (List (Chunk F)) → Type 0
  AllIf n rate none = Unit {0}
  AllIf n rate (some cs) = All (λ c. IsUniform n rate c.audio) cs

  uniform_cons-AllIf :
      (n : ℕ) (rate : F) (v : View F) (b : Option (AudioBlock F)) (rest : Option (List (Chunk F)))
      → AllIf n rate rest
      → AllIf n rate (uniform_cons fl max_channels max_frames n rate v b rest)
  unfolding uniform_cons
  uniform_cons-AllIf n rate v none rest h = tt
  uniform_cons-AllIf n rate v (some b) none h = tt
  uniform_cons-AllIf n rate v (some b) (some cs) h =
      elim (Bool-cases (is_uniform fl max_channels max_frames n rate b)) [
        | inl t ↦ rw t (is_uniform_lem n rate b t, h)
        | inr t ↦ rw t tt
      ]

  uniform_chunks-AllIf :
      (n : ℕ) (rate : F) (vs : List (View F))
      → AllIf n rate (uniform_chunks fl max_channels max_frames n rate vs)
  unfolding uniform_chunks
  uniform_chunks-AllIf n rate [] = tt
  uniform_chunks-AllIf n rate (v ∷ vs) =
      uniform_cons-AllIf n rate v v.audio _ (uniform_chunks-AllIf n rate vs)

  uniform_cons-IsUniform :
      (n : ℕ) (rate : F) (v : View F) (b : AudioBlock F) (rest : Option (List (Chunk F)))
      (cs : List (Chunk F))
      → uniform_cons fl max_channels max_frames n rate v (some b) rest ≡ some cs
      → IsUniform n rate b
  unfolding uniform_cons
  uniform_cons-IsUniform n rate v b none cs h = absurd cc
  uniform_cons-IsUniform n rate v b (some ds) cs h = is_uniform_lem n rate b (ground arith)

  -- The front block of a request.
  pub record IsRequest (views : List (View F)) (rate : F) (frames : ℕ) (cs : List (Chunk F))
      : Type 0 where
    pub front : AudioBlock F
    pub is_front : front_audio views ≡ some front
    pub finite_rate : is_finite rate ≡ true
    pub positive_rate : le rate (of_ℕ 0) ≡ false
    pub frames_fit : frames ≤ max_frames
    pub channels_fit : front.channel_count ≤ max_channels
    pub uniform : All (λ c. IsUniform front.channel_count front.sample_rate_hz c.audio) cs

  pub valid_request-IsRequest :
      (views : List (View F)) (rate : F) (frames : ℕ) (cs : List (Chunk F))
      → valid_request fl max_channels max_frames views rate frames ≡ some cs
      → IsRequest views rate frames cs
  unfolding valid_request request_chunks front_audio uniform_chunks
  valid_request-IsRequest [] rate frames cs h = absurd cc
  valid_request-IsRequest (v ∷ vs) rate frames cs h = from_front v.audio refl
    where
      from_front : (o : Option (AudioBlock F)) → v.audio ≡ o → IsRequest (v ∷ vs) rate frames cs
      from_front none e = absurd (ground (arith, h, e))
      from_front (some front) e = record {
        front = front;
        is_front = e;
        finite_rate = ground (arith, h, e);
        positive_rate = ground (arith, h, e);
        frames_fit = ground (arith, h, e);
        channels_fit = ground (arith, first.count, first.valid.channels_fit);
        uniform =
            subst (AllIf front.channel_count front.sample_rate_hz) taken
              (uniform_chunks-AllIf front.channel_count front.sample_rate_hz (v ∷ vs));
      }
        where
          taken :
              uniform_chunks fl max_channels max_frames front.channel_count front.sample_rate_hz
                (v ∷ vs)
              ≡ some cs
          taken = ground (arith, h, e)

          first : IsUniform front.channel_count front.sample_rate_hz front
          first =
              uniform_cons-IsUniform front.channel_count front.sample_rate_hz v front
                (uniform_chunks fl max_channels max_frames front.channel_count front.sample_rate_hz
                  vs)
                cs (ground (arith, taken, e))

  -- A chunk that is found is one of the list.
  pub find_chunk-All :
      (P : Chunk F → Type 0) (cs : List (Chunk F)) (frame : ℕ) (c : Chunk F)
      → All P cs
      → find_chunk cs frame ≡ some c
      → P c
  unfolding find_chunk
  find_chunk-All P [] frame c h e = absurd cc
  find_chunk-All P (x ∷ xs) frame c h e = elim (Bool-cases (holds_frame x frame)) [
    | inl t ↦ subst P (ground (arith, e, t)) h.0
    | inr t ↦ find_chunk-All P xs frame c h.1 (ground (arith, e, t))
  ]

  -- The chunks of a request have the generation of its views.
  abbrev pub OfGeneration : ℕ → Option (List (Chunk F)) → Type 0
  OfGeneration generation none = Unit {0}
  OfGeneration generation (some cs) = All (λ c. c.generation ≡ generation) cs

  uniform_cons-OfGeneration :
      (g n : ℕ) (rate : F) (v : View F) (b : Option (AudioBlock F)) (rest : Option (List (Chunk F)))
      → v.generation ≡ g
      → OfGeneration g rest
      → OfGeneration g (uniform_cons fl max_channels max_frames n rate v b rest)
  unfolding uniform_cons
  uniform_cons-OfGeneration g n rate v none rest e h = tt
  uniform_cons-OfGeneration g n rate v (some b) none e h = tt
  uniform_cons-OfGeneration g n rate v (some b) (some cs) e h =
      elim (Bool-cases (is_uniform fl max_channels max_frames n rate b)) [
        | inl t ↦ rw t (e, h)
        | inr t ↦ rw t tt
      ]

  uniform_chunks-OfGeneration :
      (g n : ℕ) (rate : F) (vs : List (View F))
      → All (λ v. v.generation ≡ g) vs
      → OfGeneration g (uniform_chunks fl max_channels max_frames n rate vs)
  unfolding uniform_chunks
  uniform_chunks-OfGeneration g n rate [] h = tt
  uniform_chunks-OfGeneration g n rate (v ∷ vs) h =
      uniform_cons-OfGeneration g n rate v v.audio _ h.0
        (uniform_chunks-OfGeneration g n rate vs h.1)

  request_chunks-OfGeneration :
      (g : ℕ) (front : Option (AudioBlock F)) (rate : F) (frames : ℕ) (vs : List (View F))
      → All (λ v. v.generation ≡ g) vs
      → OfGeneration g (request_chunks fl max_channels max_frames front rate frames vs)
  unfolding request_chunks
  request_chunks-OfGeneration g none rate frames vs h = tt
  request_chunks-OfGeneration g (some b) rate frames vs h =
      elim (Bool-cases
        (not (is_finite rate) || le rate (of_ℕ 0) || frames == 0 || ltb max_frames frames)) [
          | inl t ↦ rw t tt
          | inr t ↦ rw t (uniform_chunks-OfGeneration g b.channel_count b.sample_rate_hz vs h)
        ]

  pub valid_request-OfGeneration :
      (g : ℕ) (rate : F) (frames : ℕ) (vs : List (View F))
      → All (λ v. v.generation ≡ g) vs
      → OfGeneration g (valid_request fl max_channels max_frames vs rate frames)
  unfolding valid_request
  valid_request-OfGeneration g rate frames vs h =
      request_chunks-OfGeneration g (front_audio vs) rate frames vs h
