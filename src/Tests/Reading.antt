-- ===== src/Tests/Reading.antt =====
-- The reservations of the pool, the valid blocks, and the snapshots that a reader is given.
use music_ra_t.Common.{
  ℕ, ◌≤◌, ◌≡◌, refl, ◌⊎◌, ◌↔◌, [], ◌∷◌, ◌++◌, true, false, some, map, arith, get_elem?, set, ◌==◌,
  if◌then◌else◌, ◌&&◌, has_flag,
}
use music_ra_t.Common.Int.{ℤ, pos}
use music_ra_t.Common.Floats.{integers}
use music_ra_t.Audio.{
  AudioBlockValidationError, validate_audio_block, active_mismatch, inactive_not_empty,
  mark_invalid_audio_block, audio_block_invalid,
}
use music_ra_t.Audio.Valid.{IsValidBlock, validate_audio_block_iff, mark_invalid-IsValidBlock}
use music_ra_t.Pool.{
  Pool, Slot, free, ready, writing, reading, is_free, no_write, try_begin_write, empty_audio,
  try_acquire, contains, publish, release, read_view, put_state, discard_before_generation,
  buffered_range,
}
use music_ra_t.Pool.Reservations.{
  Takes, SameBut, published, published_pool, discarded, old_count, try_begin_write_lem,
  try_acquire_lem, release-publish, discard_before_generation_lem,
}
use music_ra_t.Pool.Range.{Buffered, IsTight, end_of, buffered_range_lem}
use music_ra_t.Coordinator.{
  Gaps, unpublished, PlaybackSnapshot, bump_version, put_generation, worker_open, worker_seek,
  worker_close, try_read_snapshot, apply_all,
}
use music_ra_t.Coordinator.Snapshot.{snapshot_of, stores_of, after, is_odd, IsFollowed}
use music_ra_t.Coordinator.Consistent.{try_read_snapshot_lem}
use music_ra_t.Coordinator.Calls.{
  IsTransition, no_stores, worker_IsTransition, read_after_open, read_after_seek,
}
use music_ra_t.Tests.Media.{two_frames, tape, player}

-- One slot with two frames to be published, and one that is ready under generation 4.
abbrev written : Slot ℤ
written = record {
  audio = two_frames;
  start_frame = 0;
  generation = 0;
  frame_count = 0;
  state = writing;
}

abbrev resident : Slot ℤ
resident = record {
  audio = two_frames;
  start_frame = 10;
  generation = 4;
  frame_count = 2;
  state = ready;
}

abbrev pool : Pool ℤ
pool = record { slots = written ∷ resident ∷ []; resident_frames = 2; next_write_index = 0 }

two_frames_checked :
    validate_audio_block integers 1 2 two_frames ≡ AudioBlockValidationError.no_error
unfolding validate_audio_block active_mismatch inactive_not_empty
two_frames_checked = refl

two_frames-IsValidBlock : IsValidBlock integers 1 2 two_frames
two_frames-IsValidBlock = (validate_audio_block_iff integers 1 2 two_frames).0 two_frames_checked

validate_audio_block_iff_example :
    (validate_audio_block integers 1 2 two_frames ≡ AudioBlockValidationError.no_error)
    ↔ IsValidBlock integers 1 2 two_frames
validate_audio_block_iff_example = validate_audio_block_iff integers 1 2 two_frames

mark_invalid-IsValidBlock_example :
    IsValidBlock integers 1 2 (mark_invalid_audio_block two_frames)
    × (has_flag (mark_invalid_audio_block two_frames).flags audio_block_invalid ≡ true)
mark_invalid-IsValidBlock_example = mark_invalid-IsValidBlock integers 1 2 two_frames refl refl

try_begin_write_lem_example :
    ((try_begin_write integers pool ≡ (no_write, pool))
      × ((j : ℕ) (s : Slot ℤ) → get_elem? pool.slots j ≡ some s → is_free s.state ≡ false))
    ⊎ ((i : ℕ) × (s : Slot ℤ) × (get_elem? pool.slots i ≡ some s)
        × (is_free s.state ≡ true)
        × ((try_begin_write integers pool).0 ≡ record { index = i; audio = some i })
        × (get_elem? (try_begin_write integers pool).1.slots i
            ≡ some (record s { state = writing; audio = empty_audio integers s.audio }))
        × SameBut i pool (try_begin_write integers pool).1)
try_begin_write_lem_example = try_begin_write_lem integers pool (omega arith)

try_acquire_lem_example :
    Takes integers
      (λ s. s.generation == 4 && contains integers s (pos 11))
      pool
      (try_acquire integers pool (pos 11) 4)
try_acquire_lem_example = try_acquire_lem integers pool (pos 11) 4 refl refl

release-publish_example :
    (publish integers 1 2 pool (record { index = 0; audio = some 0 }) 8 4
      ≡ (true, published_pool integers 1 2 pool 0 written 8 4))
    × (release
          (put_state
            (published_pool integers 1 2 pool 0 written 8 4)
            0
            (published integers 1 2 written 8 4)
            reading)
          (read_view 0 (published integers 1 2 written 8 4))
        ≡ record pool {
          slots = set pool.slots 0 (record (published integers 1 2 written 8 4) { state = free });
        })
release-publish_example =
    release-publish integers 1 2 pool 0 8 4 written refl two_frames-IsValidBlock (omega arith)

discard_before_generation_lem_example :
    let (n, q) = discard_before_generation pool 5 in
    (q.slots ≡ map (discarded 5) pool.slots)
    × (n ≡ old_count 5 pool.slots)
    × (q.next_write_index ≡ 0)
discard_before_generation_lem_example = discard_before_generation_lem pool 5

buffered_range_lem_example :
    ((j : ℕ) (s : Slot ℤ)
      → get_elem? pool.slots j ≡ some s
      → Buffered 4 s
      → ((buffered_range pool 4).start_frame ≤ s.start_frame)
        × (end_of s ≤ (buffered_range pool 4).end_frame))
    × IsTight 4 pool.slots (record { start_frame = 0; end_frame = 0 }) (buffered_range pool 4)
buffered_range_lem_example = buffered_range_lem pool 4

worker_IsTransition_example :
    IsTransition (worker_open integers tape player 5).2
    × IsTransition (worker_seek integers tape player 6).2
    × IsTransition (worker_close integers tape player).1
worker_IsTransition_example = worker_IsTransition integers tape player 5 6

read_after_open_example :
    let (opened, e, ss) = worker_open integers tape player 5 in
    try_read_snapshot (apply_all ss unpublished) no_stores no_stores
    ≡ some (record {
      generation = e.generation;
      media_frame = 0;
      channel_count = if opened then 1 else 0;
    })
read_after_open_example = read_after_open integers tape unpublished player 5 (omega arith) refl

read_after_seek_example :
    let (sought, e, ss) = worker_seek integers tape player 6 in
    try_read_snapshot (apply_all ss unpublished) no_stores no_stores
    ≡ some (
        if sought
        then record { generation = e.generation; media_frame = 6; channel_count = 0 }
        else snapshot_of unpublished)
read_after_seek_example = read_after_seek integers tape unpublished player 6 (omega arith) refl

-- A transition to generation 7 that falls into the first attempt.
abbrev disturbed : Gaps
disturbed = record {
  after_version = [];
  after_generation = bump_version ∷ put_generation 7 ∷ bump_version ∷ [];
  after_media_frame = [];
  after_channel_count = [];
}

abbrev seventh : PlaybackSnapshot
seventh = record { generation = 7; media_frame = 0; channel_count = 0 }

disturbed-IsFollowed : IsFollowed unpublished (stores_of disturbed ++ stores_of no_stores)
disturbed-IsFollowed = record {
  small = omega arith;
  disciplined = ((λ q. q), ((λ q. refl), ((λ q. refl), tt)));
  few = omega arith;
}

second_try : try_read_snapshot unpublished disturbed no_stores ≡ some seventh
unfolding try_read_snapshot
second_try = refl

try_read_snapshot_lem_example :
    ((is_odd unpublished.transition_version ≡ false) × (seventh ≡ snapshot_of unpublished))
    ⊎ ((is_odd (after disturbed unpublished).transition_version ≡ false)
        × (seventh ≡ snapshot_of (after disturbed unpublished)))
try_read_snapshot_lem_example =
    try_read_snapshot_lem unpublished disturbed no_stores seventh disturbed-IsFollowed second_try
