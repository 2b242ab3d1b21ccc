-- ===== src/Coordinator/Calls.antt =====
-- The stores of each call of the decoding thread, and what a reader finds after it.
use music_ra_t.Common.{
  ℕ, ◌^◌, ◌<◌, ◌≡◌, refl, ap, ◌∙◌, List, [], Bool, true, false, some, arith, if◌then◌else◌,
}
use music_ra_t.Common.Floats.{Floats}
use music_ra_t.DecodeAhead.{Decoder, DecodeAhead, open_path, seek}
use music_ra_t.Coordinator.{
  Published, Store, apply_all, Gaps, try_read_snapshot, open_stores, seek_stores, worker_open,
  worker_seek, worker_close,
}
use music_ra_t.Coordinator.Snapshot.{is_odd, still_open, IsDisciplined, snapshot_of}

-- A call makes its visible stores within one transition, and ends it.
abbrev pub IsTransition : List Store → Type 0
IsTransition ss = IsDisciplined false ss × (still_open false ss ≡ false)

abbrev pub no_stores : Gaps
no_stores = record {
  after_version = [];
  after_generation = [];
  after_media_frame = [];
  after_channel_count = [];
}

module _ (fl : Floats) (dec : Decoder fl.F) where
  open fl use {F}
  open dec use {D}

  open_stores-IsTransition :
      (o : Bool) (d : DecodeAhead F D) → IsTransition (open_stores fl dec (o, d))
  unfolding open_stores
  open_stores-IsTransition true d = ground arith
  open_stores-IsTransition false d = ground arith

  seek_stores-IsTransition :
      (n : ℕ) (o : Bool) (d : DecodeAhead F D) → IsTransition (seek_stores fl dec n (o, d))
  unfolding seek_stores
  seek_stores-IsTransition n true d = ground arith
  seek_stores-IsTransition n false d = ground arith

  -- `worker_open`, `worker_seek` and `worker_close` publish within one transition, whatever their
  -- outcome: no visible store is made while the version is even, and it is even again at the end.
  pub worker_IsTransition :
      (d : DecodeAhead F D) (path : dec.FilePath) (media_frame : ℕ)
      → IsTransition (worker_open fl dec d path).2
        × IsTransition (worker_seek fl dec d media_frame).2
        × IsTransition (worker_close fl dec d).1
  unfolding worker_open worker_seek worker_close
  worker_IsTransition d path media_frame = (
    open_stores-IsTransition (open_path fl dec d path).0 (open_path fl dec d path).1,
    seek_stores-IsTransition media_frame (seek fl dec d media_frame).0
        (seek fl dec d media_frame).1,
    ground arith,
  )

quiet_read :
    (m : Published)
    → is_odd m.transition_version ≡ false
    → try_read_snapshot m no_stores no_stores ≡ some (snapshot_of m)
unfolding try_read_snapshot
quiet_read m h = ground arith

module _ (fl : Floats) (dec : Decoder fl.F) (m : Published) where
  open fl use {F}
  open dec use {D}

  open_stores_memory :
      (o : Bool) (d : DecodeAhead F D)
      → m.transition_version < 2 ^ 64
      → is_odd m.transition_version ≡ false
      → let n = apply_all (open_stores fl dec (o, d)) m in
        (is_odd n.transition_version ≡ false)
        × (snapshot_of n ≡ record {
          generation = d.generation;
          media_frame = 0;
          channel_count = if o then dec.channel_count d.decoder else 0;
        })
  unfolding apply_all open_stores
  open_stores_memory true d small h = (ground arith, refl)
  open_stores_memory false d small h = (ground arith, refl)

  seek_stores_memory :
      (n : ℕ) (o : Bool) (d : DecodeAhead F D)
      → m.transition_version < 2 ^ 64
      → is_odd m.transition_version ≡ false
      → let k = apply_all (seek_stores fl dec n (o, d)) m in
        (is_odd k.transition_version ≡ false)
        × (snapshot_of k ≡ (
            if o
            then record {
              generation = d.generation;
              media_frame = n;
              channel_count = m.channel_count;
            }
            else snapshot_of m))
  unfolding apply_all seek_stores
  seek_stores_memory n true d small h = (ground arith, refl)
  seek_stores_memory n false d small h = (ground arith, refl)

  -- If no transition was under way, a reader that nobody disturbs sees the track that was opened, at its start, under its new
  -- generation; after a failed opening it sees the new generation with no channel.
  pub read_after_open :
      (d : DecodeAhead F D) (path : dec.FilePath)
      → m.transition_version < 2 ^ 64
      → is_odd m.transition_version ≡ false
      → let (opened, e, ss) = worker_open fl dec d path in
        try_read_snapshot (apply_all ss m) no_stores no_stores
        ≡ some (record {
          generation = e.generation;
          media_frame = 0;
          channel_count = if opened then dec.channel_count e.decoder else 0;
        })
  unfolding worker_open
  read_after_open d path small h =
      let r = open_stores_memory (open_path fl dec d path).0 (open_path fl dec d path).1 small h in
      quiet_read _ r.0 ∙ ap some r.1

  -- If no transition was under way, after a seek it sees the new generation at the wanted frame, with the channels as they were;
  -- after a refused one it sees what it saw before.
  pub read_after_seek :
      (d : DecodeAhead F D) (media_frame : ℕ)
      → m.transition_version < 2 ^ 64
      → is_odd m.transition_version ≡ false
      → let (sought, e, ss) = worker_seek fl dec d media_frame in
        try_read_snapshot (apply_all ss m) no_stores no_stores
        ≡ some (
            if sought
            then record {
              generation = e.generation;
              media_frame = media_frame;
              channel_count = m.channel_count;
            }
            else snapshot_of m)
  unfolding worker_seek
  read_after_seek d media_frame small h =
      let r =
        seek_stores_memory media_frame (seek fl dec d media_frame).0 (seek fl dec d media_frame).1
          small h in
      quiet_read _ r.0 ∙ ap some r.1
