-- ===== src/Coordinator.antt =====
-- include/musicrat/backends/media/playback_coordinator.hpp: what the decoding thread publishes to
-- the rendering thread, and how that thread reads it. The published values are atomic variables;
-- a call of the decoding thread is the list of its stores, in the order of the code, and a read is
-- a run of loads with stores of the other thread in the gaps. Memory is sequentially consistent
-- here. The renderer itself is not part of this module.
pub mod Snapshot
pub mod Consistent
pub mod Calls
pub mod Adoption
use music_ra_t.Common.{
  ℕ, zero, suc, ◌+◌, ◌%◌, List, [], ◌∷◌, ◌++◌, Bool, true, false, Option, none, some, ◌==◌,
  if◌then◌else◌, add_u64,
}
use music_ra_t.Common.Floats.{Floats}
use music_ra_t.DecodeAhead.{
  ReaderCall, Decoder, DecodeAhead, DecodeAheadState, DecodeError, MediaCodec, no_error, open_path,
  seek, close, refill,
}

-- The atomic members, initialised as in the class.
pub record Published : Type 0 where
  pub transition_version : ℕ
  pub generation : ℕ
  pub media_frame : ℕ
  pub duration_frames : ℕ
  pub channel_count : ℕ
  pub source_sample_rate_hz : ℕ
  pub source_channel_count : ℕ
  pub codec : MediaCodec
  pub worker_state : DecodeAheadState
  pub decode_error : DecodeError

abbrev pub unpublished : Published
unpublished = record {
  transition_version = 0;
  generation = 0;
  media_frame = 0;
  duration_frames = 0;
  channel_count = 0;
  source_sample_rate_hz = 0;
  source_channel_count = 0;
  codec = MediaCodec.unknown;
  worker_state = DecodeAheadState.closed;
  decode_error = no_error;
}

-- One atomic store, or the `fetch_add` on the version.
pub data Store : Type 0 where
  bump_version : Store
  put_generation put_media_frame put_channel_count : ℕ → Store
  put_duration_frames put_source_sample_rate_hz put_source_channel_count : ℕ → Store
  put_codec : MediaCodec → Store
  put_worker_state : DecodeAheadState → Store
  put_decode_error : DecodeError → Store

unfoldable pub apply : Store → Published → Published
apply bump_version m = record m { transition_version = add_u64 m.transition_version 1 }
apply (put_generation n) m = record m { generation = n }
apply (put_media_frame n) m = record m { media_frame = n }
apply (put_channel_count n) m = record m { channel_count = n }
apply (put_duration_frames n) m = record m { duration_frames = n }
apply (put_source_sample_rate_hz n) m = record m { source_sample_rate_hz = n }
apply (put_source_channel_count n) m = record m { source_channel_count = n }
apply (put_codec c) m = record m { codec = c }
apply (put_worker_state s) m = record m { worker_state = s }
apply (put_decode_error e) m = record m { decode_error = e }

unfoldable pub apply_all : List Store → Published → Published
unfolding apply
apply_all [] m = m
apply_all (s ∷ ss) m = apply_all ss (apply s m)

-- `clear_published_metadata`
abbrev pub clear_published_metadata : List Store
clear_published_metadata =
    put_codec MediaCodec.unknown
    ∷ put_source_sample_rate_hz 0
    ∷ put_source_channel_count 0
    ∷ put_duration_frames 0
    ∷ []

-- `publish_transition`, with the `finish_transition` at its end.
abbrev pub publish_transition : ℕ → ℕ → ℕ → List Store
publish_transition generation media_frame channel_count =
    put_generation generation
    ∷ put_media_frame media_frame
    ∷ put_channel_count channel_count
    ∷ bump_version
    ∷ []

module _ (fl : Floats) (dec : Decoder fl.F) where
  open fl use {F}
  open dec use {D}

  -- The stores of `worker_open`, from the outcome of `open`.
  pub open_stores : Bool × DecodeAhead F D → List Store
  open_stores (opened, d) =
      (bump_version
        ∷ (if opened
            then put_codec (dec.codec d.decoder)
              ∷ put_source_sample_rate_hz (dec.sample_rate_hz d.decoder)
              ∷ put_source_channel_count (dec.channel_count d.decoder)
              ∷ put_duration_frames (dec.frame_count d.decoder)
              ∷ []
            else clear_published_metadata))
      ++ (put_worker_state d.state
          ∷ put_decode_error d.last_error
          ∷ publish_transition d.generation 0 (if opened then dec.channel_count d.decoder else 0))

  pub worker_open : DecodeAhead F D → dec.FilePath → Bool × DecodeAhead F D × List Store
  unfolding open_stores
  worker_open d path =
      let (opened, e) = open_path fl dec d path in (opened, e, open_stores (opened, e))

  pub seek_stores : ℕ → Bool × DecodeAhead F D → List Store
  seek_stores media_frame (true, d) =
      bump_version
      ∷ put_decode_error d.last_error
      ∷ put_generation d.generation
      ∷ put_media_frame media_frame
      ∷ put_worker_state d.state
      ∷ bump_version
      ∷ []
  seek_stores media_frame (false, d) =
      bump_version ∷ put_decode_error d.last_error ∷ bump_version ∷ []

  pub worker_seek : DecodeAhead F D → ℕ → Bool × DecodeAhead F D × List Store
  unfolding seek_stores
  worker_seek d media_frame =
      let (sought, e) = seek fl dec d media_frame in
      (sought, e, seek_stores media_frame (sought, e))

  pub worker_close : DecodeAhead F D → DecodeAhead F D × List Store
  worker_close d =
      let e = close fl dec d in
      (
        e,
        (bump_version ∷ clear_published_metadata)
            ++ (put_worker_state DecodeAheadState.closed
                ∷ put_decode_error no_error
                ∷ publish_transition e.generation 0 0),
      )

  -- `none` means that the fuel of `refill` ran out, which it does not.
  unfoldable worker_refill :
      (max_channels max_frames : ℕ)
      → List (List (ReaderCall F))
      → DecodeAhead F D
      → Option (ℕ × DecodeAhead F D × List Store)
  worker_refill max_channels max_frames gaps d =
      elim (refill fl dec max_channels max_frames gaps d) [
        | none ↦ none
        | some (chunks, e) ↦
            some (chunks, e, put_decode_error e.last_error ∷ put_worker_state e.state ∷ [])
      ]

pub record PlaybackSnapshot : Type 0 where
  pub generation : ℕ
  pub media_frame : ℕ
  pub channel_count : ℕ

-- The stores of the other thread between the five loads of one attempt to read.
pub record Gaps : Type 0 where
  pub after_version : List Store
  pub after_generation : List Store
  pub after_media_frame : List Store
  pub after_channel_count : List Store

pub data Attempt : Type 0 where
  busy torn : Attempt
  consistent : PlaybackSnapshot → Attempt

-- One round of the loop of `try_read_snapshot`, with the memory that it leaves.
unfoldable pub attempt : Published → Gaps → Attempt × Published
unfolding apply_all
attempt m g =
    let m1 = apply_all g.after_version m in
    let m2 = apply_all g.after_generation m1 in
    let m3 = apply_all g.after_media_frame m2 in
    let m4 = apply_all g.after_channel_count m3 in
    let snapshot : PlaybackSnapshot = record {
      generation = m1.generation;
      media_frame = m2.media_frame;
      channel_count = m3.channel_count;
    } in
    if m.transition_version % 2 == 1
    then (busy, m)
    else if m.transition_version == m4.transition_version
    then (consistent snapshot, m4)
    else (torn, m4)

second_attempt : Attempt × Published → Option PlaybackSnapshot
second_attempt (consistent s, m) = some s
second_attempt (_, m) = none

first_attempt : Attempt × Published → Gaps → Option PlaybackSnapshot
unfolding second_attempt
first_attempt (busy, m) g = none
first_attempt (torn, m) g = second_attempt (attempt m g)
first_attempt (consistent s, m) g = some s

-- Two attempts; stores between them are in the last gap of the first.
unfoldable pub try_read_snapshot : Published → Gaps → Gaps → Option PlaybackSnapshot
unfolding attempt first_attempt
try_read_snapshot m g1 g2 = first_attempt (attempt m g1) g2
