-- ===== src/Tests/Media.antt =====
-- The pool, the decode-ahead player and the coordinator over a small decoder: a track of eight
-- frames with one channel, read two frames at a time.
use music_ra_t.Common.{
  ℕ, ◌+◌, ◌*◌, ◌^◌, ◌<◌, ◌≤◌, ◌≡◌, refl, ◌⊎◌, List, [], ◌∷◌, true, false, arith, length, ltb, leb,
  if◌then◌else◌, total,
}
use music_ra_t.Common.Int.{ℤ, pos}
use music_ra_t.Common.Floats.{integers}
use music_ra_t.Audio.{AudioBlock}
use music_ra_t.Pool.{Pool, ready_count, try_begin_write, begin_from, claim}
use music_ra_t.Pool.Valid.{IsValid, resident_weight}
use music_ra_t.Pool.Steps.{init, Reach, Step, resident_frames-eq-total, init-IsValid}
use music_ra_t.DecodeAhead.{
  Decoder, ReaderCall, acquires_ready, DecodeAhead, DecodeAheadState, DecodeError, DecodeResult,
  MediaCodec, no_error, make, refill, open_path, close, seek,
}
use music_ra_t.DecodeAhead.Refill.{Ends, calls_in, refill-Ends}
use music_ra_t.Pool.Slots.{NoneReady, NoneReady-ready_count}
use music_ra_t.DecodeAhead.Generations.{IsSound, IsRenewed, open_path_lem, close_lem, seek_lem}

abbrev pub silence : AudioBlock ℤ
silence = record {
  channels = [] ∷ [];
  sample_rate_hz = pos 48000;
  timestamp_ns = 0;
  sequence_number = 0;
  frame_count = 0;
  channel_count = 0;
  flags = 0;
}

abbrev pub two_frames : AudioBlock ℤ
two_frames = record {
  channels = (pos 1 ∷ pos 2 ∷ []) ∷ [];
  sample_rate_hz = pos 48000;
  timestamp_ns = 0;
  sequence_number = 0;
  frame_count = 2;
  channel_count = 1;
  flags = 0;
}

-- The decoder's state is its position; a path is a number, and 0 the one that cannot be opened.
abbrev pub tape : Decoder ℤ
tape = record {
  D = ℕ;
  FilePath = ℕ;
  open_file = λ d path. (ltb 0 path, 0);
  close_file = λ d. 0;
  seek_frame = λ d n. (leb n 8, if leb n 8 then n else d);
  current_frame = λ d. d;
  last_error = λ d. DecodeError.seek_failed;
  read = λ d block n.
      if ltb d 8
      then (DecodeResult.decoded, two_frames, d + 2)
      else (DecodeResult.end_of_stream, block, d);
  sample_rate_hz = λ d. 48000;
  channel_count = λ d. 1;
  frame_count = λ d. 8;
  codec = λ d. MediaCodec.unknown;
}

abbrev pub three_slots : Pool ℤ
three_slots = init silence 3

abbrev pub player : DecodeAhead ℤ ℕ
player = make 0 three_slots 3 2 2 2

player-IsValid : IsValid 2 player.pool
unfolding make
player-IsValid = init-IsValid integers 1 2 silence 3 (omega arith)

player-IsSound : IsSound 2 player
unfolding make init
player-IsSound = record {
  valid = player-IsValid;
  current = ((λ r. refl), ((λ r. refl), ((λ r. refl), tt)));
}

few : player.generation + 1 < 2 ^ 64
unfolding make
few = omega arith

small : length (try_begin_write integers three_slots).1.slots * 2 < 2 ^ 64
unfolding init try_begin_write begin_from claim
small = omega arith

player-NoneReady : NoneReady player.pool.slots
unfolding make init
player-NoneReady = (refl, (refl, (refl, tt)))

player_below : ready_count player.pool.slots ≤ player.high_watermark
unfolding make
player_below = omega (arith, NoneReady-ready_count player.pool.slots player-NoneReady)

-- The rendering thread takes a chunk before the third round.
abbrev one_taken : List (List (ReaderCall ℤ))
one_taken = [] ∷ [] ∷ (acquires_ready 1 ∷ []) ∷ []

refill-Ends_example :
    Ends integers tape 1 2 player (calls_in one_taken) 0 (refill integers tape 1 2 one_taken player)
refill-Ends_example =
    refill-Ends integers tape 1 2 one_taken player player-IsValid player-IsSound.current
      player_below

resident_frames-eq-total_example :
    (try_begin_write integers three_slots).1.resident_frames
    ≡ total resident_weight (try_begin_write integers three_slots).1.slots
resident_frames-eq-total_example =
    resident_frames-eq-total integers 1 2 silence 3 (omega arith) small
      (Reach.next Reach.here Step.begins)

open_path_lem_example :
    let (done, e) = open_path integers tape player 5 in
    IsRenewed 2 player e
    × (((done ≡ true) × (e.state ≡ DecodeAheadState.ready) × (e.last_error ≡ no_error))
        ⊎ ((done ≡ false)
            × (e.state ≡ DecodeAheadState.error)
            × (e.last_error ≡ DecodeError.seek_failed)))
open_path_lem_example = open_path_lem integers tape 2 player 5 player-IsSound few

close_lem_example :
    IsRenewed 2 player (close integers tape player)
    × ((close integers tape player).state ≡ DecodeAheadState.closed)
    × ((close integers tape player).last_error ≡ no_error)
close_lem_example = close_lem integers tape 2 player player-IsSound few

seek_lem_example :
    let (done, e) = seek integers tape player 6 in
    ((done ≡ false)
      × (e ≡ record player { decoder = e.decoder; last_error = DecodeError.seek_failed }))
    ⊎ ((done ≡ true)
        × IsRenewed 2 player e
        × (e.last_error ≡ no_error)
        × (e.state ≡ DecodeAheadState.ready))
seek_lem_example = seek_lem integers tape 2 player 6 player-IsSound few
