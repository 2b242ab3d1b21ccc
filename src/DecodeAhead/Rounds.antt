-- ===== src/DecodeAhead/Rounds.antt =====
-- One round of the loop of `refill`: one slot changes, and the loop stops or one more is ready.
use music_ra_t.Common.{
  ℕ, ◌<◌, ◌≡◌, refl, ap, ◌∙◌, ◌⊎◌, inl, inr, Bool, true, false, some, arith, length, get_elem?, set,
  lt_of_get_elem?, set-set, get_elem?-set_self, has_flag,
}
use music_ra_t.Common.Floats.{Floats}
use music_ra_t.Pool.{Pool, Slot, free, writing, ready, put_slot, try_begin_write, is_free}
use music_ra_t.Pool.Slots.{held_by, cancel_slots, claimed, try_begin_write_slots, publish_slots}
use music_ra_t.DecodeAhead.{
  Decoder, DecodeAhead, DecodeResult, is_ready_state, published, after_read, read_into, round,
}

module _ {F D : Type 0} where
  -- Slot `i` is free again and the loop stops, or it is ready with a chunk of this generation. A
  -- loop that stops leaves the state `Ready`.
  pub record Fills (d : DecodeAhead F D) (i : ℕ) (out : Bool × ℕ × DecodeAhead F D) : Type 0 where
    pub slot : Slot F
    pub slots : out.2.pool.slots ≡ set d.pool.slots i slot
    pub outcome :
        ((slot.state ≡ free) × (out.0 ≡ false) × (out.1 ≡ 0))
        ⊎ ((slot.state ≡ ready) × (slot.generation ≡ d.generation) × (out.1 ≡ 1))
    pub same_generation : out.2.generation ≡ d.generation
    pub same_watermark : out.2.high_watermark ≡ d.high_watermark
    pub goes_on : out.0 ≡ true → out.2.state ≡ d.state
    pub stops : out.0 ≡ false → is_ready_state out.2.state ≡ false

  -- Writes to one slot add up to the last.
  Fills-over :
      (d d' : DecodeAhead F D) (i : ℕ) (s : Slot F) (out : Bool × ℕ × DecodeAhead F D)
      → d'.pool.slots ≡ set d.pool.slots i s
      → d'.generation ≡ d.generation
      → d'.high_watermark ≡ d.high_watermark
      → d'.state ≡ d.state
      → Fills d' i out
      → Fills d i out
  Fills-over d d' i s out e g w st f = record {
    slot = f.slot;
    slots = f.slots ∙ ap (λ ss. set ss i f.slot) e ∙ set-set d.pool.slots i s f.slot;
    outcome = ground (arith, f.outcome);
    same_generation = f.same_generation ∙ g;
    same_watermark = f.same_watermark ∙ w;
    goes_on = λ q. f.goes_on q ∙ st;
    stops = f.stops;
  }

module _ (fl : Floats) (dec : Decoder fl.F) (max_channels max_frames : ℕ) where
  open fl use {F}
  open dec use {D}

  published-Fills :
      (d : DecodeAhead F D) (i : ℕ) (t : Slot F) (final : Bool) (out : Bool × Pool F)
      → out.1.slots ≡ set d.pool.slots i t
      → ((out.0 ≡ true) × (t.state ≡ ready) × (t.generation ≡ d.generation))
        ⊎ ((out.0 ≡ false) × (t.state ≡ free))
      → Fills d i (published fl dec max_channels max_frames d final out)
  unfolding published
  published-Fills d i t final (false, p) ss h = record {
    slot = t;
    slots = ss;
    outcome = ground (arith, h);
    same_generation = refl;
    same_watermark = refl;
    goes_on = λ e. cc;
    stops = λ e. refl;
  }
  published-Fills d i t true (true, p) ss h = record {
    slot = t;
    slots = ss;
    outcome = ground (arith, h);
    same_generation = refl;
    same_watermark = refl;
    goes_on = λ e. cc;
    stops = λ e. refl;
  }
  published-Fills d i t false (true, p) ss h = record {
    slot = t;
    slots = ss;
    outcome = ground (arith, h);
    same_generation = refl;
    same_watermark = refl;
    goes_on = λ e. refl;
    stops = λ e. cc;
  }

  after_read-Fills :
      (d : DecodeAhead F D) (i start flags : ℕ) (s : Slot F) (result : DecodeResult)
      → get_elem? d.pool.slots i ≡ some s
      → s.state ≡ writing
      → Fills d i (after_read fl dec max_channels max_frames d (held_by i) start result flags)
  unfolding after_read
  after_read-Fills d i start flags s DecodeResult.error g w = record {
    slot = record s { state = free };
    slots = cancel_slots d.pool i s g w;
    outcome = inl (refl, refl, refl);
    same_generation = refl;
    same_watermark = refl;
    goes_on = λ e. cc;
    stops = λ e. refl;
  }
  after_read-Fills d i start flags s DecodeResult.end_of_stream g w = record {
    slot = record s { state = free };
    slots = cancel_slots d.pool i s g w;
    outcome = inl (refl, refl, refl);
    same_generation = refl;
    same_watermark = refl;
    goes_on = λ e. cc;
    stops = λ e. refl;
  }
  after_read-Fills d i start flags s DecodeResult.decoded g w =
      elim (publish_slots fl max_channels max_frames d.pool i start d.generation s g w) [
        | inl (done, ss) ↦ published-Fills d i _ (has_flag flags 1) _ ss (inl (done, refl, refl))
        | inr (failed, ss) ↦ published-Fills d i _ (has_flag flags 1) _ ss (inr (failed, refl))
      ]

  read_into-Fills :
      (d : DecodeAhead F D) (i : ℕ) (s : Slot F)
      → get_elem? d.pool.slots i ≡ some s
      → s.state ≡ writing
      → Fills d i (read_into fl dec max_channels max_frames d (held_by i) i (some s))
  unfolding read_into
  read_into-Fills d i s g w =
      Fills-over d
        (record d {
          decoder = (dec.read d.decoder s.audio d.chunk_frames).2;
          pool = put_slot d.pool i t;
        })
        i t _ refl refl refl refl
        (after_read-Fills _ i _ _ t _
          (get_elem?-set_self d.pool.slots i t (lt_of_get_elem? d.pool.slots i g)) w)
    where
      t : Slot F
      t = record s { audio = (dec.read d.decoder s.audio d.chunk_frames).1 }

  -- A round finds no free slot and changes nothing, or fills one free slot.
  pub round_lem :
      (d : DecodeAhead F D)
      → d.pool.next_write_index < length d.pool.slots
      → ((round fl dec max_channels max_frames d ≡ (false, 0, d))
          × ((j : ℕ) (s : Slot F) → get_elem? d.pool.slots j ≡ some s → is_free s.state ≡ false))
        ⊎ ((i : ℕ) × (s : Slot F) × (get_elem? d.pool.slots i ≡ some s)
            × (is_free s.state ≡ true)
            × Fills d i (round fl dec max_channels max_frames d))
  unfolding round
  round_lem d h = elim (try_begin_write_slots fl d.pool h) [
    | inl (e, all) ↦ inl (rw e, all)
    | inr (i, s, g, f, r, ss) ↦ inr (
      i,
      s,
      g,
      f,
      rw r (
          rw (held i s g ss) (
            Fills-over d (record d { pool = p }) i (claimed fl s) _ ss refl refl refl
              (read_into-Fills (record d { pool = p }) i (claimed fl s) (held i s g ss) refl))),
    )
  ]
    where
      p : Pool F
      p = (try_begin_write fl d.pool).1

      held :
          (i : ℕ) (s : Slot F)
          → get_elem? d.pool.slots i ≡ some s
          → p.slots ≡ set d.pool.slots i (claimed fl s)
          → get_elem? p.slots i ≡ some (claimed fl s)
      held i s g ss = rw ss (get_elem?-set_self d.pool.slots i _ (lt_of_get_elem? d.pool.slots i g))
