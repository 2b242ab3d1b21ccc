-- ===== src/DecodeAhead/Generations.antt =====
-- A new track or position is a new generation, and no chunk of an older one can be acquired.
use music_ra_t.Common.{
  ℕ, ◌+◌, ◌^◌, ◌<◌, ◌≡◌, refl, ◌⊎◌, inl, inr, List, [], ◌∷◌, Bool, true, false, arith, ◌==◌,
  if◌then◌else◌,
}
use music_ra_t.Common.Floats.{Floats}
use music_ra_t.Pool.{Slot, ready_count, discard_before_generation}
use music_ra_t.Pool.Valid.{IsValid, discard-IsValid}
use music_ra_t.Pool.Reservations.{discard_before_generation_lem}
use music_ra_t.Pool.Slots.{NoneReady, discarded-NoneReady, NoneReady-ready_count}
use music_ra_t.DecodeAhead.{
  Decoder, DecodeAhead, DecodeAheadState, DecodeError, no_error, advance_generation, renew, opened,
  open_path, close, sought, seek,
}
use music_ra_t.Pool.Taken.{CurrentSlots}

-- A generation is never 0, the mark of a player that has none.
pub advance_generation-ne-zero : (g : ℕ) → 0 < advance_generation g
unfolding advance_generation
advance_generation-ne-zero g = ground arith

NoneReady-CurrentSlots :
    {F : Type 0} (g : ℕ) (ss : List (Slot F)) → NoneReady ss → CurrentSlots g ss
NoneReady-CurrentSlots g [] h = tt
NoneReady-CurrentSlots g (s ∷ ss) h = (λ r. ground (arith, h.0), NoneReady-CurrentSlots g ss h.1)

module _ {F D : Type 0} (max_frames : ℕ) where
  pub record IsSound (d : DecodeAhead F D) : Type 0 where
    pub valid : IsValid max_frames d.pool
    pub current : CurrentSlots d.generation d.pool.slots

  -- The state after a change of generation: sound, one generation on, and nothing to acquire.
  pub record IsRenewed (d e : DecodeAhead F D) : Type 0 where
    pub sound : IsSound e
    pub next : e.generation ≡ d.generation + 1
    pub emptied : ready_count e.pool.slots ≡ 0

  renew-IsRenewed :
      (d : DecodeAhead F D) → IsSound d → d.generation + 1 < 2 ^ 64 → IsRenewed d (renew d)
  unfolding renew
  renew-IsRenewed d h small = record {
    sound = record {
      valid = discard-IsValid max_frames d.pool (advance_generation d.generation) h.valid;
      current = NoneReady-CurrentSlots _ _ none;
    };
    next = next;
    emptied = NoneReady-ready_count _ none;
  }
    where
      next : advance_generation d.generation ≡ d.generation + 1
      next = unfold advance_generation in ground arith

      none : NoneReady (discard_before_generation d.pool (advance_generation d.generation)).1.slots
      none = rw (discard_before_generation_lem d.pool (advance_generation d.generation)).0 (
          discarded-NoneReady d.generation (advance_generation d.generation) d.pool.slots
            (omega (arith, next)) h.current)

  IsRenewed-with :
      (d e : DecodeAhead F D) (s : D) (x : DecodeError) (st : DecodeAheadState)
      → IsRenewed d e
      → IsRenewed d (record e { decoder = s; last_error = x; state = st })
  IsRenewed-with d e s x st r = record {
    sound = record { valid = r.sound.valid; current = r.sound.current };
    next = r.next;
    emptied = r.emptied;
  }

module _ (fl : Floats) (dec : Decoder fl.F) (max_frames : ℕ) where
  open fl use {F}
  open dec use {D}

  renewed :
      (d : DecodeAhead F D) (s : D)
      → IsSound max_frames d
      → d.generation + 1 < 2 ^ 64
      → IsRenewed max_frames d (renew (record d { decoder = s }))
  renewed d s h small =
      let r =
        renew-IsRenewed max_frames (record d { decoder = s })
          (record { valid = h.valid; current = h.current }) small in
      record { sound = r.sound; next = r.next; emptied = r.emptied }

  -- In a sound state, with a generation left below 2^64, opening a path begins a new generation, whatever the decoder answers: no chunk of the old track
  -- can be acquired any more. The state tells whether the decoder opened it, and its error.
  pub open_path_lem :
      (d : DecodeAhead F D) (path : dec.FilePath)
      → IsSound max_frames d
      → d.generation + 1 < 2 ^ 64
      → let (done, e) = open_path fl dec d path in
        IsRenewed max_frames d e
        × (((done ≡ true) × (e.state ≡ DecodeAheadState.ready) × (e.last_error ≡ no_error))
            ⊎ ((done ≡ false)
                × (e.state ≡ DecodeAheadState.error)
                × (e.last_error ≡ dec.last_error e.decoder)))
  unfolding open_path
  open_path_lem d path h small = split (dec.open_file closed.decoder path)
    where
      closed : DecodeAhead F D
      closed = renew (record d { decoder = dec.close_file d.decoder })

      split :
          (out : Bool × D)
          → let (done, e) = opened fl dec closed out in
            IsRenewed max_frames d e
            × (((done ≡ true) × (e.state ≡ DecodeAheadState.ready) × (e.last_error ≡ no_error))
                ⊎ ((done ≡ false)
                    × (e.state ≡ DecodeAheadState.error)
                    × (e.last_error ≡ dec.last_error e.decoder)))
      split (true, s) = (
        IsRenewed-with max_frames d closed s no_error DecodeAheadState.ready (renewed d _ h small),
        inl (refl, refl, refl),
      )
      split (false, s) = (
        IsRenewed-with max_frames d closed s (dec.last_error s) DecodeAheadState.error
            (renewed d _ h small),
        inr (refl, refl, refl),
      )

  -- In a sound state, with a generation left, closing begins a new generation too, with nothing to
  -- acquire; the player is closed, and has no error.
  pub close_lem :
      (d : DecodeAhead F D)
      → IsSound max_frames d
      → d.generation + 1 < 2 ^ 64
      → IsRenewed max_frames d (close fl dec d)
        × ((close fl dec d).state ≡ DecodeAheadState.closed)
        × ((close fl dec d).last_error ≡ no_error)
  unfolding close
  close_lem d h small = (
    IsRenewed-with max_frames d _ (dec.close_file d.decoder) no_error DecodeAheadState.closed
        (renewed d (dec.close_file d.decoder) h small),
    refl,
    refl,
  )

  -- In a sound state, with a generation left: a seek that the decoder refuses keeps the generation, the chunks and the state, and records the
  -- error. One that it makes begins a new generation with nothing to acquire; the stream is over
  -- exactly when the position is the number of its frames.
  pub seek_lem :
      (d : DecodeAhead F D) (media_frame : ℕ)
      → IsSound max_frames d
      → d.generation + 1 < 2 ^ 64
      → let (done, e) = seek fl dec d media_frame in
        ((done ≡ false)
          × (e ≡ record d { decoder = e.decoder; last_error = dec.last_error e.decoder }))
        ⊎ ((done ≡ true)
            × IsRenewed max_frames d e
            × (e.last_error ≡ no_error)
            × (e.state ≡ (
                if media_frame == dec.frame_count e.decoder
                then DecodeAheadState.end_of_stream
                else DecodeAheadState.ready)))
  unfolding seek
  seek_lem d media_frame h small = split (dec.seek_frame d.decoder media_frame)
    where
      split :
          (out : Bool × D)
          → let (done, e) = sought fl dec d media_frame out in
            ((done ≡ false)
              × (e ≡ record d { decoder = e.decoder; last_error = dec.last_error e.decoder }))
            ⊎ ((done ≡ true)
                × IsRenewed max_frames d e
                × (e.last_error ≡ no_error)
                × (e.state ≡ (
                    if media_frame == dec.frame_count e.decoder
                    then DecodeAheadState.end_of_stream
                    else DecodeAheadState.ready)))
      split (false, s) = inl (refl, refl)
      split (true, s) =
          inr (refl, IsRenewed-with max_frames d _ _ no_error _ (renewed d s h small), refl, refl)
