-- ===== src/DeckControlQuantizer.antt =====
-- include/musicrat/dsp/deck_control_quantizer.hpp: deck events wait for the next beat or bar. The
-- capacity of an event block, which is that of `pending_` too, is the argument `max_events`.
pub mod Output
pub mod Contents
use music_ra_t.Common.{
  ℕ, ◌-◌, ◌^◌, List, [], ◌∷◌, ◌++◌, Bool, true, false, ◌&&◌, ◌||◌, not, Option, none, some, length,
  ltb, leb, ◌==◌, if◌then◌else◌, add_u32,
}
use music_ra_t.Common.Floats.{Floats}
use music_ra_t.Protocol.{Block, DeckControlEvent, TransportBlock}
use music_ra_t.Timeline.{insert_event}

pub record DeckControlQuantizerResult : Type 0 where
  pub pending_count : ℕ
  pub dropped_count : ℕ

pub record PendingEvent (F : Type 0) : Type 0 where
  pub event : DeckControlEvent F
  pub target_beat : F

-- The output, the number of events dropped, and the first `pending_count_` of `pending_`.
pub record Quantizing (F : Type 0) : Type 0 where
  pub events : List (DeckControlEvent F)
  pub dropped : ℕ
  pub pending : List (PendingEvent F)

module _ (fl : Floats) where
  open fl use {F, is_finite, lt, le, add, sub, mul, div, ceil, of_ℕ, to_ℕ, nan, boundary_epsilon}

  pub is_valid_transport : TransportBlock F → Bool
  is_valid_transport t =
      is_finite t.beat_position
      && le (of_ℕ 0) t.beat_position
      && is_finite t.tempo_bpm
      && lt (of_ℕ 0) t.tempo_bpm
      && ltb 0 t.sample_rate_hz
      && ltb 0 t.beats_per_bar

  -- `valid_transport` on a pointer: the transport, if there is one and it is valid.
  pub usable_transport : Option (TransportBlock F) → Option (TransportBlock F)
  usable_transport none = none
  usable_transport (some t) = if is_valid_transport t then some t else none

  -- The states are 0 stopped, 1 playing, 2 paused, 3 recording.
  pub advancing : TransportBlock F → Bool
  advancing t = t.state == 1 || t.state == 3

  pub beats_per_frame : TransportBlock F → F
  beats_per_frame t = div t.tempo_bpm (mul (of_ℕ 60) (of_ℕ t.sample_rate_hz))

  pub next_boundary : F → F → F
  next_boundary beat quantum = mul (ceil (sub (div beat quantum) boundary_epsilon)) quantum

  pub boundary_offset : F → TransportBlock F → ℕ
  boundary_offset target_beat t =
      let offset =
        ceil (sub (div (sub target_beat t.beat_position) (beats_per_frame t)) boundary_epsilon) in
      if le target_beat (add t.beat_position boundary_epsilon)
      then 0
      else if not (is_finite offset) || lt (of_ℕ (2 ^ 64 - 1)) offset
      then 2 ^ 64 - 1
      else to_ℕ offset

  -- The beat that an event waits for. DECK_QUANTIZE_BAR is 2.
  pub target_of : DeckControlEvent F → TransportBlock F → F
  target_of e t =
      next_boundary (add t.beat_position (mul (of_ℕ e.sample_offset) (beats_per_frame t)))
        (if e.quantization == 2 then of_ℕ t.beats_per_bar else of_ℕ 1)

  module _ (max_events : ℕ) where
    pub insert : DeckControlEvent F → Quantizing F → Quantizing F
    insert e q =
        if leb max_events (length q.events)
        then record q { dropped = add_u32 q.dropped 1 }
        else record q { events = insert_event (λ x. x.sample_offset) e q.events }

    pub queue_event : DeckControlEvent F → F → Quantizing F → Quantizing F
    queue_event e target_beat q =
        if leb max_events (length q.pending)
        then record q { dropped = add_u32 q.dropped 1 }
        else record q {
          pending = q.pending ++ (record { event = e; target_beat = target_beat }) ∷ [];
        }

    pub schedule : DeckControlEvent F → TransportBlock F → ℕ → Quantizing F → Quantizing F
    schedule e t frame_count q =
        let target_beat = target_of e t in
        let offset = boundary_offset target_beat t in
        if advancing t && ltb offset frame_count
        then insert (record e { sample_offset = offset }) q
        else queue_event e target_beat q

    -- A pending event whose beat was not known gets one.
    pub aimed : PendingEvent F → TransportBlock F → PendingEvent F
    aimed p t =
        if is_finite p.target_beat then p else record p { target_beat = target_of p.event t }

    -- One round of the loop of `publish_due`; `q.pending` are the events retained so far.
    pub publish_one : PendingEvent F → TransportBlock F → ℕ → Quantizing F → Quantizing F
    publish_one p t frame_count q =
        let offset = boundary_offset p.target_beat t in
        if advancing t && ltb offset frame_count
        then insert (record (p.event) { sample_offset = offset }) q
        else record q { pending = q.pending ++ p ∷ [] }

    pub publish_each : List (PendingEvent F) → TransportBlock F → ℕ → Quantizing F → Quantizing F
    publish_each [] t frame_count q = q
    publish_each (p ∷ ps) t frame_count q =
        publish_each ps t frame_count (publish_one (aimed p t) t frame_count q)

    pub publish_due : TransportBlock F → ℕ → Quantizing F → Quantizing F
    publish_due t frame_count q = publish_each q.pending t frame_count (record q { pending = [] })

    pub deferred : DeckControlEvent F → Option (TransportBlock F) → ℕ → Quantizing F → Quantizing F
    deferred e none frame_count q = queue_event e nan q
    deferred e (some t) frame_count q = schedule e t frame_count q

    -- One round of the loop over the input. DECK_QUANTIZE_IMMEDIATE is 0.
    pub take_event :
        Option (TransportBlock F) → ℕ → DeckControlEvent F → Quantizing F → Quantizing F
    take_event t frame_count e q =
        if leb frame_count e.sample_offset || ltb 2 e.quantization
        then record q { dropped = add_u32 q.dropped 1 }
        else if e.quantization == 0
        then insert e q
        else deferred e t frame_count q

    pub take_events :
        Option (TransportBlock F) → ℕ → List (DeckControlEvent F) → Quantizing F → Quantizing F
    take_events t frame_count [] q = q
    take_events t frame_count (e ∷ es) q =
        take_events t frame_count es (take_event t frame_count e q)

    pub published_due : Option (TransportBlock F) → ℕ → Quantizing F → Quantizing F
    published_due none frame_count q = q
    published_due (some t) frame_count q = publish_due t frame_count q

    -- What the null pointer gives in place of an input.
    abbrev pub input_block : Option (Block (DeckControlEvent F)) → Block (DeckControlEvent F)
    input_block none = record { events = []; timestamp_ns = 0; sequence_number = 0; flags = 0 }
    input_block (some input) = input

    abbrev quantized :
        Option (Block (DeckControlEvent F))
        → Option (TransportBlock F)
        → ℕ
        → List (PendingEvent F)
        → Quantizing F
    quantized input transport frame_count pending =
        take_events (usable_transport transport) frame_count (input_block input).events (
          published_due (usable_transport transport) frame_count
            (record { events = []; dropped = 0; pending = pending }))

    pub quantize :
        Option (Block (DeckControlEvent F))
        → Option (TransportBlock F)
        → ℕ
        → List (PendingEvent F)
        → (DeckControlQuantizerResult × Block (DeckControlEvent F)) × List (PendingEvent F)
    quantize input transport frame_count pending =
        let q = quantized input transport frame_count pending in
        (
          (
            record { pending_count = length q.pending; dropped_count = q.dropped },
            record {
              events = q.events;
              timestamp_ns = (input_block input).timestamp_ns;
              sequence_number = (input_block input).sequence_number;
              flags = 0;
            },
          ),
          q.pending,
        )

    unfoldable reset : List (PendingEvent F) → List (PendingEvent F)
    reset pending = []
