-- ===== src/Tests/Listening.antt =====
-- A listener over a pool with one chunk, which was published as generation 1.
use music_ra_t.Common.{ℕ, ◌≡◌, refl, [], ◌∷◌, false, none, All}
use music_ra_t.Common.Int.{ℤ, pos}
use music_ra_t.Common.Floats.{integers}
use music_ra_t.Coordinator.{Published, unpublished, Gaps, try_read_snapshot}
use music_ra_t.Coordinator.Adoption.{
  Listener, Follows, heard_generation, render_published, render_published_lem,
}
use music_ra_t.DecodeAheadRenderer.{DecodeAheadRenderer, make, retire, play, is_held}
use music_ra_t.DecodeAheadRenderer.Calls.{IsOwnerOf, make-IsOwner, retire_lem, play_lem}
use music_ra_t.Pool.{Pool, free, ready}
use music_ra_t.Pool.Readers.{reads}
use music_ra_t.Varispeed.{new_renderer}
use music_ra_t.Tests.Media.{silence, two_frames}

abbrev pool : Pool ℤ
pool = record {
  slots =
      (record {
        audio = two_frames;
        start_frame = 0;
        generation = 0;
        frame_count = 2;
        state = ready;
      })
      ∷ (record { audio = silence; start_frame = 0; generation = 0; frame_count = 0; state = free })
      ∷ [];
  resident_frames = 2;
  next_write_index = 1;
}

-- After a `render` that acquires the chunk.
abbrev playing : DecodeAheadRenderer ℤ
playing = (play integers 2 8 (pos 48000) 1 0 0 none (make integers pool) silence).state

play_lem_example :
    let out = play integers 2 8 (pos 48000) 1 0 0 none (make integers pool) silence in
    IsOwnerOf out.state
    × (out.result.generation_mismatch ≡ false)
    × (out.state.renderer.generation ≡ (make integers pool).renderer.generation)
play_lem_example =
    play_lem integers 2 8 (pos 48000) 1 0 0 none (make integers pool) silence
      (make-IsOwner integers pool (refl, (refl, tt)))

retire_lem_example :
    (All (λ r. is_held r ≡ false) (retire integers playing).reservations)
    × ((i : ℕ) → reads (retire integers playing).pool i ≡ 0)
retire_lem_example = retire_lem integers playing play_lem_example.0

abbrev listener : Listener ℤ
listener = record { player = make integers pool; adopted_generation = 0 }

abbrev published : Published
published = record unpublished { generation = 1; media_frame = 2; channel_count = 1 }

abbrev quiet : Gaps
quiet = record {
  after_version = [];
  after_generation = [];
  after_media_frame = [];
  after_channel_count = [];
}

render_published_lem_example :
    Follows integers 2 8
      (heard_generation integers (try_read_snapshot published quiet quiet) 0)
      (render_published integers 2 8 published quiet quiet (pos 48000) 1 0 0 none listener silence)
unfolding make new_renderer
render_published_lem_example =
    render_published_lem integers 2 8 published quiet quiet (pos 48000) 1 0 0 none listener silence
      (record { owner = make-IsOwner integers pool (refl, (refl, tt)); adopted = refl })
