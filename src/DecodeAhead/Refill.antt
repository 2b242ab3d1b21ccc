-- ===== src/DecodeAhead/Refill.antt =====
-- `refill` ends, and why it stops.
use mathlib.Core.Path.{subst}
use music_ra_t.Common.{
  ℕ, zero, suc, ◌+◌, ◌≤◌, ◌<◌, ◌≡◌, refl, sym, ap, ◌∙◌, ◌⊎◌, inl, inr, List, [], ◌∷◌, length, Bool,
  true, false, Option, some, arith, get_elem?, ltb, Bool-cases, ltb→lt, ltb_false→le, All-set,
}
use music_ra_t.Common.Floats.{Floats}
use music_ra_t.Pool.{Slot, is_free, is_ready, ready_count}
use music_ra_t.Pool.Valid.{IsValid}
use music_ra_t.Pool.Slots.{ready_count-set}
use music_ra_t.Pool.Taken.{CurrentSlots}
use music_ra_t.DecodeAhead.Readers.{read_calls-Takes}
use music_ra_t.DecodeAhead.{
  ReaderCall, interrupted, read_calls, Decoder, DecodeAhead, is_ready_state, round, refill_loop,
  refill,
}
use music_ra_t.DecodeAhead.Rounds.{Fills, round_lem}
use music_ra_t.DecodeAhead.Accounting.{round-IsValid}

-- The number of calls in the lists.
unfoldable pub calls_in : {A : Type 0} → List (List A) → ℕ
calls_in [] = 0
calls_in (g ∷ gs) = length g + calls_in gs

module _ {F D : Type 0} where
  -- The number of ready slots after a round is one more for each chunk published.
  Fills-ready_count :
      (d : DecodeAhead F D) (i : ℕ) (s : Slot F) (out : Bool × ℕ × DecodeAhead F D)
      → get_elem? d.pool.slots i ≡ some s
      → is_free s.state ≡ true
      → Fills d i out
      → (ready_count out.2.pool.slots ≡ ready_count d.pool.slots + out.1)
        × (out.0 ≡ true → out.1 ≡ 1)
        × (out.1 ≤ 1)
  Fills-ready_count d i s out g f h =
      ground (arith, h.slots, h.outcome, ready_count-set d.pool.slots i h.slot g)

  Fills-CurrentSlots :
      (d : DecodeAhead F D) (i : ℕ) (out : Bool × ℕ × DecodeAhead F D)
      → Fills d i out
      → CurrentSlots d.generation d.pool.slots
      → CurrentSlots d.generation out.2.pool.slots
  Fills-CurrentSlots d i out h c = rw h.slots (
      All-set (λ s. is_ready s.state ≡ true → s.generation ≡ d.generation) d.pool.slots i h.slot c
        (λ r. ground (arith, h.outcome)))

  -- From `chunks` counted so far to the result, with at most `taken` chunks taken meanwhile.
  pub record Refilled (d : DecodeAhead F D) (taken chunks : ℕ) (out : ℕ × DecodeAhead F D)
      : Type 0 where
    pub no_more : chunks + ready_count out.1.pool.slots ≤ out.0 + ready_count d.pool.slots
    pub no_fewer : out.0 + ready_count d.pool.slots ≤ chunks + ready_count out.1.pool.slots + taken
    pub same_generation : out.1.generation ≡ d.generation
    pub same_watermark : out.1.high_watermark ≡ d.high_watermark
    pub current : CurrentSlots d.generation out.1.pool.slots
    pub bounded : ready_count out.1.pool.slots ≤ d.high_watermark
    pub reason :
        (is_ready_state out.1.state ≡ false)
        ⊎ ((d.high_watermark ≤ ready_count out.1.pool.slots)
            ⊎ ((j : ℕ) (s : Slot F)
                → get_elem? out.1.pool.slots j ≡ some s
                → is_free s.state ≡ false))

  -- What the loop keeps: no more slots are ready than the watermark, all of this generation.
  pub record Within (max_frames : ℕ) (d : DecodeAhead F D) : Type 0 where
    pub current : CurrentSlots d.generation d.pool.slots
    pub bounded : ready_count d.pool.slots ≤ d.high_watermark
    pub valid : IsValid max_frames d.pool

  Refilled-next :
      (d e : DecodeAhead F D) (k m n l t : ℕ) (out : ℕ × DecodeAhead F D)
      → n + ready_count e.pool.slots ≤ m + ready_count d.pool.slots
      → m + ready_count d.pool.slots ≤ n + ready_count e.pool.slots + k
      → e.generation ≡ d.generation
      → e.high_watermark ≡ d.high_watermark
      → t ≡ k + l
      → Refilled e l m out
      → Refilled d t n out
  Refilled-next d e k m n l t out q q' g w s r = record {
    no_more = omega (arith, r.no_more);
    no_fewer = omega (arith, r.no_fewer);
    same_generation = r.same_generation ∙ g;
    same_watermark = r.same_watermark ∙ w;
    current = rw (sym g) r.current;
    bounded = rw (sym w) r.bounded;
    reason = ground (arith, r.reason, w);
  }

  Refilled-none :
      (max_frames : ℕ) (d : DecodeAhead F D) (l n : ℕ)
      → Within max_frames d
      → (is_ready_state d.state ≡ false)
        ⊎ ((d.high_watermark ≤ ready_count d.pool.slots)
            ⊎ ((j : ℕ) (s : Slot F) → get_elem? d.pool.slots j ≡ some s → is_free s.state ≡ false))
      → Refilled d l n (n, d)
  Refilled-none max_frames d l n h r = record {
    no_more = omega arith;
    no_fewer = omega arith;
    same_generation = refl;
    same_watermark = refl;
    current = h.current;
    bounded = h.bounded;
    reason = r;
  }

module _ (fl : Floats) (dec : Decoder fl.F) (max_channels max_frames : ℕ) where
  open fl use {F}
  open dec use {D}

  abbrev go : DecodeAhead F D → Bool × ℕ × DecodeAhead F D
  go d = round fl dec max_channels max_frames d

  -- The run ends with a result that says `Refilled`, of a pool whose accounts are right.
  abbrev pub Ends : DecodeAhead F D → ℕ → ℕ → Option (ℕ × DecodeAhead F D) → Type 0
  Ends d taken n out =
      (m : ℕ) × (e : DecodeAhead F D) × (out ≡ some (m, e))
      × Refilled d taken n (m, e)
      × IsValid max_frames e.pool

  Ends-next :
      (d e : DecodeAhead F D) (k m n l t : ℕ) (out : Option (ℕ × DecodeAhead F D))
      → n + ready_count e.pool.slots ≤ m + ready_count d.pool.slots
      → m + ready_count d.pool.slots ≤ n + ready_count e.pool.slots + k
      → e.generation ≡ d.generation
      → e.high_watermark ≡ d.high_watermark
      → t ≡ k + l
      → Ends e l m out
      → Ends d t n out
  Ends-next d e k m n l t out q q' g w s (c, f, o, r, v) =
      (c, f, o, Refilled-next d e k m n l t (c, f) q q' g w s r, v)

  -- One round, from a slot that was free.
  record Advances (d : DecodeAhead F D) (out : Bool × ℕ × DecodeAhead F D) : Type 0 where
    counted : ready_count out.2.pool.slots ≡ ready_count d.pool.slots + out.1
    one : out.0 ≡ true → out.1 ≡ 1
    same_generation : out.2.generation ≡ d.generation
    same_watermark : out.2.high_watermark ≡ d.high_watermark
    stops : out.0 ≡ false → is_ready_state out.2.state ≡ false
    within : Within max_frames out.2

  round-Advances :
      (d : DecodeAhead F D) (i : ℕ) (s : Slot F)
      → get_elem? d.pool.slots i ≡ some s
      → is_free s.state ≡ true
      → ready_count d.pool.slots < d.high_watermark
      → Within max_frames d
      → Fills d i (go d)
      → Advances d (go d)
  round-Advances d i s g f less w h = record {
    counted = k.0;
    one = k.1;
    same_generation = h.same_generation;
    same_watermark = h.same_watermark;
    stops = h.stops;
    within = record {
      current = rw h.same_generation (Fills-CurrentSlots d i (go d) h w.current);
      bounded = omega (arith, k.0, k.2, h.same_watermark);
      valid = round-IsValid fl dec max_channels max_frames d w.valid;
    };
  }
    where
      k :
          (ready_count (go d).2.pool.slots ≡ ready_count d.pool.slots + (go d).1)
          × ((go d).0 ≡ true → (go d).1 ≡ 1)
          × ((go d).1 ≤ 1)
      k = Fills-ready_count d i s (go d) g f h

  stopped :
      (d : DecodeAhead F D) (l n : ℕ)
      → Advances d (go d)
      → (go d).0 ≡ false
      → Refilled d l n (n + (go d).1, (go d).2)
  stopped d l n a stop = record {
    no_more = omega (arith, a.counted);
    no_fewer = omega (arith, a.counted);
    same_generation = a.same_generation;
    same_watermark = a.same_watermark;
    current = subst (λ g. CurrentSlots g (go d).2.pool.slots) a.same_generation a.within.current;
    bounded = omega (arith, a.within.bounded, a.same_watermark);
    reason = inl (a.stops stop);
  }

  abbrev loop : ℕ → List (List (ReaderCall F)) → DecodeAhead F D → ℕ → Option (ℕ × DecodeAhead F D)
  loop = refill_loop fl dec max_channels max_frames

  abbrev below : DecodeAhead F D → Bool
  below d = ltb (ready_count d.pool.slots) d.high_watermark

  -- A round of the loop, after the calls of the other thread.
  abbrev turn : ℕ → List (List (ReaderCall F)) → DecodeAhead F D → ℕ → Option (ℕ × DecodeAhead F D)
  turn fuel later e n = elim (below e) [
    | false ↦ some (n, e)
    | true ↦ elim (go e).0 [
      | true ↦ loop fuel later (go e).2 (n + (go e).1)
      | false ↦ some (n + (go e).1, (go e).2)
    ]
  ]

  turn_full :
      (fuel n : ℕ) (later : List (List (ReaderCall F))) (d : DecodeAhead F D)
      → below d ≡ false
      → turn fuel later d n ≡ some (n, d)
  turn_full fuel n later d t = rw (t, turn)

  turn_last :
      (fuel n : ℕ) (later : List (List (ReaderCall F))) (d : DecodeAhead F D)
      → below d ≡ true
      → (go d).0 ≡ false
      → turn fuel later d n ≡ some (n + (go d).1, (go d).2)
  turn_last fuel n later d t stop = rw (t, turn) (rw stop)

  turn_more :
      (fuel n : ℕ) (later : List (List (ReaderCall F))) (d : DecodeAhead F D)
      → below d ≡ true
      → (go d).0 ≡ true
      → turn fuel later d n ≡ loop fuel later (go d).2 (n + (go d).1)
  turn_more fuel n later d t more = rw (t, turn) (rw more)

  -- `rest` is what the loop does when this round goes on.
  turn-Ends :
      (fuel n l : ℕ) (later : List (List (ReaderCall F))) (d : DecodeAhead F D)
      → Within max_frames d
      → (Within max_frames (go d).2
          → (go d).2.high_watermark ≡ d.high_watermark
          → ready_count (go d).2.pool.slots ≡ ready_count d.pool.slots + 1
          → Ends (go d).2 l (n + (go d).1) (loop fuel later (go d).2 (n + (go d).1)))
      → Ends d l n (turn fuel later d n)
  turn-Ends fuel n l later d w rest = elim (Bool-cases (below d)) [
    | inr t ↦ (
      n,
      d,
      turn_full fuel n later d t,
      Refilled-none max_frames d l n w (inr (inl (ltb_false→le _ _ t))),
      w.valid,
    )
    | inl t ↦ elim (round_lem fl dec max_channels max_frames d w.valid.next_in) [
      | inl (e, all) ↦ (
        n,
        d,
        turn_last fuel n later d t (ap (λ o. o.0) e)
            ∙ ap (λ o. some (n + o.1, o.2)) e
            ∙ ap (λ k. some (k, d)) (omega arith),
        Refilled-none max_frames d l n w (inr (inr all)),
        w.valid,
      )
      | inr (i, s, g, f, r) ↦
          let a = round-Advances d i s g f (ltb→lt _ _ t) w r in
          elim (Bool-cases (go d).0) [
            | inr stop ↦ (
              n + (go d).1,
              (go d).2,
              turn_last fuel n later d t stop,
              stopped d l n a stop,
              a.within.valid,
            )
            | inl more ↦ rw (turn_more fuel n later d t more) (
                Ends-next d (go d).2 0 (n + (go d).1) n l l _ (omega (arith, a.counted))
                  (omega (arith, a.counted)) a.same_generation a.same_watermark (omega arith)
                  (rest a.within a.same_watermark (omega (arith, a.counted, a.one more))))
          ]
    ]
  ]

  -- Without calls of the other thread.
  quiet-Ends :
      (fuel n : ℕ) (d : DecodeAhead F D)
      → Within max_frames d
      → d.high_watermark ≤ fuel + ready_count d.pool.slots
      → Ends d 0 n (loop (suc fuel) [] d n)
  unfolding refill_loop read_calls
  quiet-Ends zero n d w h =
      turn-Ends zero n 0 [] d w (λ v e r. absurd (omega (arith, v.bounded, e, r)))
  quiet-Ends (suc fuel) n d w h =
      turn-Ends (suc fuel) n 0 [] d w
        (λ v e r. quiet-Ends fuel (n + (go d).1) (go d).2 v (omega (arith, e, r)))

  interrupted-Within :
      (d : DecodeAhead F D) (calls : List (ReaderCall F))
      → Within max_frames d
      → Within max_frames (interrupted fl d calls)
  interrupted-Within d calls w =
      let t = read_calls-Takes fl max_frames d.pool calls in
      record {
        current = t.current d.generation w.current;
        bounded = omega (arith, t.fewer, w.bounded);
        valid = t.valid w.valid;
      }

  loop-Ends :
      (gaps : List (List (ReaderCall F))) (fuel n : ℕ) (d : DecodeAhead F D)
      → Within max_frames d
      → length gaps + d.high_watermark ≤ fuel
      → Ends d (calls_in gaps) n (loop (suc fuel) gaps d n)
  unfolding refill_loop calls_in
  loop-Ends [] fuel n d w h = quiet-Ends fuel n d w (omega arith)
  loop-Ends (g ∷ gaps) zero n d w h = absurd (omega arith)
  loop-Ends (g ∷ gaps) (suc fuel) n d w h =
      let t = read_calls-Takes fl max_frames d.pool g in
      Ends-next d (interrupted fl d g) (length g) n n (calls_in gaps) (length g + calls_in gaps) _
        (omega (arith, t.fewer)) (omega (arith, t.not_more)) refl refl refl
        (turn-Ends (suc fuel) n (calls_in gaps) gaps (interrupted fl d g) (interrupted-Within d g w)
          (λ v e r. loop-Ends gaps fuel _ _ v (omega (arith, e))))

  -- Whatever the rendering thread takes or gives back before each round, in finitely many rounds:
  -- on a pool whose accounts are right, with no more slots ready than the watermark, each with a
  -- chunk of the current generation, `refill` ends, on the fuel that it takes. Then the same holds
  -- of the pool; generation and watermark are as they were; the chunks published are at least as
  -- many as there are more ready slots, and exceed this by the number of calls of the rendering
  -- thread at most, so they are exactly as many if there is none; and `refill` has stopped because
  -- the stream is over, failed or was not open, because the watermark is reached, or because no
  -- slot is free.
  pub refill-Ends :
      (gaps : List (List (ReaderCall F))) (d : DecodeAhead F D)
      → IsValid max_frames d.pool
      → CurrentSlots d.generation d.pool.slots
      → ready_count d.pool.slots ≤ d.high_watermark
      → Ends d (calls_in gaps) 0 (refill fl dec max_channels max_frames gaps d)
  unfolding refill
  refill-Ends gaps d v c b = elim (Bool-cases (is_ready_state d.state)) [
    | inl t ↦ rw (t, refill) (loop-Ends gaps (length gaps + d.high_watermark) 0 d w (omega arith))
    | inr t ↦ rw (t, refill) (0, d, refl, Refilled-none max_frames d (calls_in gaps) 0 w (inl t), v)
  ]
    where
      w : Within max_frames d
      w = record { current = c; bounded = b; valid = v }
