-- ===== src/Audio/Valid.antt =====
-- What `validate_audio_block` accepts.
use music_ra_t.Common.{
  ℕ, zero, suc, ◌≤◌, ◌<◌, ◌≡◌, refl, ◌↔◌, List, [], ◌∷◌, true, false, some, arith, map, length,
  get_elem?, has_flag,
}
use music_ra_t.Common.Floats.{Floats}
use music_ra_t.Audio.{
  AudioBlock, AudioBlockValidationError, active_mismatch, inactive_not_empty, validate_audio_block,
  mark_invalid_audio_block, audio_block_invalid,
}

-- The channels below `n` hold `k` samples each, and the others none.
pub record HasSizes {F : Type 0} (n k : ℕ) (cs : List (List F)) : Type 0 where
  pub active : (i : ℕ) (c : List F) → get_elem? cs i ≡ some c → i < n → length c ≡ k
  pub inactive : (i : ℕ) (c : List F) → get_elem? cs i ≡ some c → n ≤ i → c ≡ []

module _ {F : Type 0} (k : ℕ) where
  pub HasSizes-tail :
      (n : ℕ) (c : List F) (cs : List (List F)) → HasSizes (suc n) k (c ∷ cs) → HasSizes n k cs
  HasSizes-tail n c cs h = record {
    active = λ i d e p. h.active (suc i) d e (omega arith);
    inactive = λ i d e p. h.inactive (suc i) d e (omega arith);
  }

  pub HasSizes-zero :
      (c : List F) (cs : List (List F)) → HasSizes zero k (c ∷ cs) → HasSizes zero k cs
  HasSizes-zero c cs h = record {
    active = λ i d e p. absurd (omega arith);
    inactive = λ i d e p. h.inactive (suc i) d e (omega arith);
  }

  HasSizes-loops :
      (n : ℕ) (cs : List (List F))
      → HasSizes n k cs
      → (active_mismatch n k cs ≡ false) × (inactive_not_empty n cs ≡ false)
  unfolding active_mismatch inactive_not_empty
  HasSizes-loops zero [] h = (refl, refl)
  HasSizes-loops (suc n) [] h = (refl, refl)
  HasSizes-loops zero (c ∷ cs) h =
      ground
        (arith, h.inactive 0 c refl (omega arith), HasSizes-loops zero cs (HasSizes-zero c cs h))
  HasSizes-loops (suc n) (c ∷ cs) h =
      ground (arith, h.active 0 c refl (omega arith), HasSizes-loops n cs (HasSizes-tail n c cs h))

  pub HasSizes-cons_zero :
      (c : List F) (cs : List (List F)) → c ≡ [] → HasSizes zero k cs → HasSizes zero k (c ∷ cs)
  HasSizes-cons_zero c cs e h = record {
    active = λ i d q p. absurd (omega arith);
    inactive = inactive;
  }
    where
      inactive : (i : ℕ) (d : List F) → get_elem? (c ∷ cs) i ≡ some d → zero ≤ i → d ≡ []
      inactive zero d q p = ground arith
      inactive (suc i) d q p = h.inactive i d q (omega arith)

  pub HasSizes-cons_suc :
      (n : ℕ) (c : List F) (cs : List (List F))
      → length c ≡ k
      → HasSizes n k cs
      → HasSizes (suc n) k (c ∷ cs)
  HasSizes-cons_suc n c cs e h = record { active = active; inactive = inactive }
    where
      active : (i : ℕ) (d : List F) → get_elem? (c ∷ cs) i ≡ some d → i < suc n → length d ≡ k
      active zero d q p = ground arith
      active (suc i) d q p = h.active i d q (omega arith)

      inactive : (i : ℕ) (d : List F) → get_elem? (c ∷ cs) i ≡ some d → suc n ≤ i → d ≡ []
      inactive zero d q p = absurd (omega arith)
      inactive (suc i) d q p = h.inactive i d q (omega arith)

  loops-HasSizes :
      (n : ℕ) (cs : List (List F))
      → active_mismatch n k cs ≡ false
      → inactive_not_empty n cs ≡ false
      → HasSizes n k cs
  unfolding active_mismatch inactive_not_empty
  loops-HasSizes zero [] p q = record { active = λ i c e h. cc; inactive = λ i c e h. cc }
  loops-HasSizes (suc n) [] p q = record { active = λ i c e h. cc; inactive = λ i c e h. cc }
  loops-HasSizes zero (c ∷ cs) p q =
      HasSizes-cons_zero c cs (ground arith) (loops-HasSizes zero cs refl (ground arith))
  loops-HasSizes (suc n) (c ∷ cs) p q =
      HasSizes-cons_suc n c cs (ground arith) (loops-HasSizes n cs (ground arith) q)

-- A block that the pipeline may use: a positive finite rate, counts within the limits of the
-- build, and exactly `frame_count` samples in each active channel.
module _ (fl : Floats) (max_channels max_frames : ℕ) where
  pub record IsValidBlock (b : AudioBlock fl.F) : Type 0 where
    pub finite_rate : fl.is_finite b.sample_rate_hz ≡ true
    pub positive_rate : fl.le b.sample_rate_hz (fl.of_ℕ 0) ≡ false
    pub channels_fit : b.channel_count ≤ max_channels
    pub frames_fit : b.frame_count ≤ max_frames
    pub sizes : HasSizes b.channel_count b.frame_count b.channels

  -- `validate_audio_block` reports no error exactly for the valid blocks.
  pub validate_audio_block_iff :
      (b : AudioBlock fl.F)
      → (validate_audio_block fl max_channels max_frames b ≡ AudioBlockValidationError.no_error)
        ↔ IsValidBlock b
  unfolding validate_audio_block
  validate_audio_block_iff b = (
    λ e. record {
      finite_rate = ground arith;
      positive_rate = ground arith;
      channels_fit = ground arith;
      frames_fit = ground arith;
      sizes = loops-HasSizes b.frame_count b.channel_count b.channels (ground arith) (ground arith);
    },
    λ v. ground (arith, HasSizes-loops b.frame_count b.channel_count b.channels v.sizes),
  )

  pub cleared-HasSizes : (cs : List (List fl.F)) → HasSizes {F = fl.F} 0 0 (map (λ c. []) cs)
  cleared-HasSizes [] = record { active = λ i c e h. cc; inactive = λ i c e h. cc }
  cleared-HasSizes (c ∷ cs) = HasSizes-cons_zero 0 [] (map (λ c. []) cs) refl (cleared-HasSizes cs)

  -- A block marked invalid carries the flag, and is still a well-formed empty block if its rate is:
  -- later stages validate it without an error.
  pub mark_invalid-IsValidBlock :
      (b : AudioBlock fl.F)
      → fl.is_finite b.sample_rate_hz ≡ true
      → fl.le b.sample_rate_hz (fl.of_ℕ 0) ≡ false
      → IsValidBlock (mark_invalid_audio_block b)
        × (has_flag (mark_invalid_audio_block b).flags audio_block_invalid ≡ true)
  unfolding mark_invalid_audio_block
  mark_invalid-IsValidBlock b f p = (
    record {
      finite_rate = f;
      positive_rate = p;
      channels_fit = omega arith;
      frames_fit = omega arith;
      sizes = cleared-HasSizes b.channels;
    },
    ground arith,
  )
