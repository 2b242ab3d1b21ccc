-- ===== src/DecodeAhead/Accounting.antt =====
-- A round of `refill` keeps the accounting of the pool.
use music_ra_t.Common.{
  ℕ, ◌≡◌, refl, inl, inr, Bool, true, false, some, arith, get_elem?, set, lt_of_get_elem?,
  get_elem?-set_self, has_flag,
}
use music_ra_t.Common.Floats.{Floats}
use music_ra_t.Pool.{Pool, Slot, writing, try_begin_write}
use music_ra_t.Pool.Valid.{IsValid, rewrite-IsValid, cancel-IsValid, publish-IsValid, begin-IsValid}
use music_ra_t.Pool.Slots.{held_by, claimed, try_begin_write_slots}
use music_ra_t.DecodeAhead.{
  Decoder, DecodeAhead, DecodeResult, published, after_read, read_into, round,
}

module _ (fl : Floats) (dec : Decoder fl.F) (max_channels max_frames : ℕ) where
  open fl use {F}
  open dec use {D}

  published-IsValid :
      (d : DecodeAhead F D) (final : Bool) (out : Bool × Pool F)
      → IsValid max_frames out.1
      → IsValid max_frames (published fl dec max_channels max_frames d final out).2.pool
  unfolding published
  published-IsValid d final (false, p) v = v
  published-IsValid d true (true, p) v = v
  published-IsValid d false (true, p) v = v

  after_read-IsValid :
      (d : DecodeAhead F D) (i start flags : ℕ) (s : Slot F) (result : DecodeResult)
      → get_elem? d.pool.slots i ≡ some s
      → s.state ≡ writing
      → IsValid max_frames d.pool
      → IsValid max_frames
          (after_read fl dec max_channels max_frames d (held_by i) start result flags).2.pool
  unfolding after_read
  after_read-IsValid d i start flags s DecodeResult.error g w v =
      cancel-IsValid max_frames d.pool (held_by i) v
  after_read-IsValid d i start flags s DecodeResult.end_of_stream g w v =
      cancel-IsValid max_frames d.pool (held_by i) v
  after_read-IsValid d i start flags s DecodeResult.decoded g w v =
      published-IsValid d (has_flag flags 1) _ (
        publish-IsValid fl max_channels max_frames d.pool (held_by i) start d.generation
          (λ t h. ground arith) v)

  read_into-IsValid :
      (d : DecodeAhead F D) (i : ℕ) (s : Slot F)
      → get_elem? d.pool.slots i ≡ some s
      → s.state ≡ writing
      → IsValid max_frames d.pool
      → IsValid max_frames
          (read_into fl dec max_channels max_frames d (held_by i) i (some s)).2.pool
  unfolding read_into
  read_into-IsValid d i s g w v =
      after_read-IsValid _ i _ _ t _
        (get_elem?-set_self d.pool.slots i t (lt_of_get_elem? d.pool.slots i g)) w
        (rewrite-IsValid max_frames d.pool i d.pool.next_write_index s t v g (λ q. ground arith)
          (ground arith) v.next_in)
    where
      t : Slot F
      t = record s { audio = (dec.read d.decoder s.audio d.chunk_frames).1 }

  pub round-IsValid :
      (d : DecodeAhead F D)
      → IsValid max_frames d.pool
      → IsValid max_frames (round fl dec max_channels max_frames d).2.pool
  unfolding round
  round-IsValid d v = elim (try_begin_write_slots fl d.pool v.next_in) [
    | inl (e, all) ↦ rw e v
    | inr (i, s, g, f, r, ss) ↦ rw r (
        rw (held i s g ss) (
          read_into-IsValid (record d { pool = p }) i (claimed fl s) (held i s g ss) refl
            (begin-IsValid fl max_channels max_frames d.pool v)))
  ]
    where
      p : Pool F
      p = (try_begin_write fl d.pool).1

      held :
          (i : ℕ) (s : Slot F)
          → get_elem? d.pool.slots i ≡ some s
          → p.slots ≡ set d.pool.slots i (claimed fl s)
          → get_elem? p.slots i ≡ some (claimed fl s)
      held i s g ss = rw ss (get_elem?-set_self d.pool.slots i _ (lt_of_get_elem? d.pool.slots i g))
