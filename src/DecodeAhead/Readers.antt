-- ===== src/DecodeAhead/Readers.antt =====
-- What calls of the rendering thread leave of the pool between two rounds of `refill`.
use mathlib.Core.Path.{subst}
use music_ra_t.Common.{ℕ, List, [], ◌∷◌, arith, length}
use music_ra_t.Common.Floats.{Floats}
use music_ra_t.Pool.{Pool}
use music_ra_t.Pool.Taken.{
  Takes, Takes-refl, Takes-trans, try_acquire-Takes, try_acquire_ready-Takes, release-Takes,
}
use music_ra_t.DecodeAhead.{ReaderCall, acquires, acquires_ready, releases, read_call, read_calls}

module _ (fl : Floats) (max_frames : ℕ) where
  open fl use {F}

  read_call-Takes : (p : Pool F) (c : ReaderCall F) → Takes max_frames 1 p (read_call fl p c)
  unfolding read_call
  read_call-Takes p (acquires x generation) = try_acquire-Takes fl max_frames p x generation
  read_call-Takes p (acquires_ready generation) = try_acquire_ready-Takes max_frames p generation
  read_call-Takes p (releases r) = release-Takes max_frames p r

  pub read_calls-Takes :
      (p : Pool F) (cs : List (ReaderCall F)) → Takes max_frames (length cs) p (read_calls fl p cs)
  unfolding read_calls
  read_calls-Takes p [] = Takes-refl max_frames 0 p
  read_calls-Takes p (c ∷ cs) =
      subst (λ n. Takes max_frames n p (read_calls fl (read_call fl p c) cs)) (omega arith)
        (Takes-trans max_frames 1 (length cs) p (read_call fl p c) _ (read_call-Takes p c)
          (read_calls-Takes (read_call fl p c) cs))
