-- ===== src/ControlMapper/Output.antt =====
-- What `process` puts out: a sorted block within its capacity, whose values are not below the
-- target minimum of their bindings and not above the target maximum. NaN, which is neither, is not
-- ruled out.
use mathlib.Core.List.{Mem}
use music_ra_t.Common.{
  ℕ, ◌≡◌, ◌≤◌, ◌<◌, ◌%◌, ◌^◌, refl, inl, inr, List, [], ◌∷◌, true, false, Option, none, some, arith,
  Bool-cases, All, length, leb,
}
use music_ra_t.Common.Floats.{Floats, IsOrdered}
use music_ra_t.Protocol.{Block, ControlEvent, ParameterEvent, CompiledControlBinding}
use music_ra_t.Timeline.Order.{
  IsSorted, insert_event-IsSorted, insert_event-insert_sorted, All-insert_sorted,
  length-insert_event,
}
use music_ra_t.ControlMapper.{
  BindingState, Entry, Progress, map_value, valid_event, matches, parameter_event, mapped, dropped,
  emitted, visit, map_event, count_invalid, map_events, begin, process,
}
use music_ra_t.ControlMapper.Values.{InRange, StateInRange, Bounded, map_value-Bounded}

module _ (fl : Floats) (bs : List (CompiledControlBinding fl.F)) where
  open fl use {F, lt}

  -- An entry of a table over the bindings `bs`.
  abbrev pub IsEntry : Entry F → Type 0
  IsEntry x =
      (lt x.binding.target_maximum x.binding.target_minimum ≡ false)
      × StateInRange fl x.binding x.state
      × Mem x.binding bs

  -- An event that a binding of `bs` has given, for a block of `frame_count` frames.
  abbrev pub IsFrom : ℕ → ParameterEvent F → Type 0
  IsFrom frame_count pe =
      (pe.sample_offset < frame_count)
      × ((b : CompiledControlBinding F) × (Mem b bs
            × (pe.parameter_id ≡ b.target_parameter_id)
            × (pe.binding_id ≡ b.binding_id)
            × InRange fl b pe.value))

  module _ (o : IsOrdered fl) (max_events frame_count : ℕ) where
    abbrev pub Fits : Progress F → Type 0
    Fits p =
        (length p.output.events ≤ max_events)
        × IsSorted (λ e. e.sample_offset) p.output.events
        × All (IsFrom frame_count) p.output.events
        × (p.result.mapped_count ≡ length p.output.events % 2 ^ 32)

    mapped-Fits :
        (pe : ParameterEvent F) (p : Progress F)
        → length p.output.events < max_events
        → IsFrom frame_count pe
        → Fits p
        → Fits (mapped fl pe p)
    unfolding mapped
    mapped-Fits pe p room h (l, s, a, n) = (
      omega (arith, length-insert_event (λ e. e.sample_offset) pe p.output.events s),
      insert_event-IsSorted (λ e. e.sample_offset) pe p.output.events s,
      rw (insert_event-insert_sorted (λ e. e.sample_offset) pe p.output.events s)
          (All-insert_sorted (λ e. e.sample_offset) (IsFrom frame_count) pe p.output.events h a),
      omega (arith, n, length-insert_event (λ e. e.sample_offset) pe p.output.events s),
    )

    emitted-Fits :
        (e : ControlEvent F) (x : Entry F) (r : BindingState F × Option F) (p : Progress F)
        → e.sample_offset < frame_count
        → IsEntry x
        → Bounded fl x.binding r
        → Fits p
        → IsEntry (emitted fl max_events e x r p).0 × Fits (emitted fl max_events e x r p).1
    unfolding emitted Bounded dropped parameter_event
    emitted-Fits e x (s, none) p he (hx, hs, hm) (hr, _) f = ((hx, hr, hm), f)
    emitted-Fits e x (s, some v) p he (hx, hs, hm) (hr, hv) f =
        elim (Bool-cases (leb max_events (length p.output.events))) [
          | inl t ↦ rw t ((hx, hs, hm), f)
          | inr t ↦ rw t (
            (hx, hr, hm),
            mapped-Fits (parameter_event fl x.binding e v) p (ground arith)
                (he, (x.binding, (hm, refl, refl, hv))) f,
          )
        ]

    visit-Fits :
        (e : ControlEvent F) (x : Entry F) (p : Progress F)
        → e.sample_offset < frame_count
        → IsEntry x
        → Fits p
        → IsEntry (visit fl max_events e x p).0 × Fits (visit fl max_events e x p).1
    unfolding visit
    visit-Fits e x p he hx f = elim (Bool-cases (matches fl x.binding e)) [
      | inl t ↦ rw t (
          emitted-Fits e x (map_value fl x.binding x.state e.value) p he hx
            (map_value-Bounded fl o x.binding hx.0 x.state e.value hx.1) f)
      | inr t ↦ rw t (hx, f)
    ]

    map_event-Fits :
        (e : ControlEvent F) (xs : List (Entry F)) (p : Progress F)
        → e.sample_offset < frame_count
        → All IsEntry xs
        → Fits p
        → All IsEntry (map_event fl max_events e xs p).0 × Fits (map_event fl max_events e xs p).1
    unfolding map_event
    map_event-Fits e [] p he hs f = (tt, f)
    map_event-Fits e (x ∷ xs) p he (hx, hs) f =
        let now = visit-Fits e x p he hx f in
        let rest = map_event-Fits e xs (visit fl max_events e x p).1 he hs now.1 in
        ((now.0, rest.0), rest.1)

    offset_of_valid :
        (e : ControlEvent F) → valid_event fl e frame_count ≡ true → e.sample_offset < frame_count
    unfolding valid_event
    offset_of_valid e h = ground arith

    map_events-Fits :
        (es : List (ControlEvent F)) (xs : List (Entry F)) (p : Progress F)
        → All IsEntry xs
        → Fits p
        → All IsEntry (map_events fl max_events frame_count es xs p).0
          × Fits (map_events fl max_events frame_count es xs p).1
    unfolding map_events count_invalid
    map_events-Fits [] xs p hs f = (hs, f)
    map_events-Fits (e ∷ es) xs p hs f = elim (Bool-cases (valid_event fl e frame_count)) [
      | inl t ↦
          let here = map_event-Fits e xs p (offset_of_valid e t) hs f in
          rw t (map_events-Fits es _ _ here.0 here.1)
      | inr t ↦ rw t (map_events-Fits es xs (count_invalid fl p) hs f)
    ]

    -- On a table over the bindings `bs`, with an order on the numbers, `process` returns a table
    -- over `bs`, and a block of at most `max_events` events in the order of their sample offsets.
    -- Each event lies below `frame_count`, names the parameter and the identifier of a binding
    -- of `bs`, and has a value that is not below the target minimum of that binding and not
    -- above its target maximum; `mapped_count` is the number of events modulo 2^32.
    pub process_lem :
        (input : Block (ControlEvent F)) (xs : List (Entry F))
        → All IsEntry xs
        → All IsEntry (process fl max_events input frame_count xs).0
          × Fits (process fl max_events input frame_count xs).1
    unfolding process begin
    process_lem input xs hs =
        map_events-Fits input.events xs (begin fl input) hs (omega arith, tt, tt, omega arith)
