-- ===== src/Tests/Events.antt =====
-- The mappers of events at small blocks.
use mathlib.Core.List.{mem-cons_self}
use music_ra_t.Common.{
  ℕ, ◌≤◌, ◌≡◌, refl, ◌↔◌, List, [], ◌∷◌, ◌++◌, false, some, arith, All, length, not, get_elem?, ltb,
  ◌<◌, ◌+◌, ◌||◌, has_flag,
}
use music_ra_t.Common.Int.{ℤ, pos}
use music_ra_t.Common.Floats.{integers, integers-IsOrdered}
use music_ra_t.Common.Capped.{Capped}
use music_ra_t.Protocol.{
  Block, ControlEvent, CompiledControlBinding, CompiledActionBinding, ParameterState,
  CompiledControlFeedbackBinding, DeckControlEvent, TransportBlock,
}
use music_ra_t.NoteEvents.{NoteEvent, NoteEventValidationError, validate_note_event_block}
use music_ra_t.NoteEvents.Valid.{Follows, validate_note_event_block_iff}
use music_ra_t.Timeline.{insert_event}
use music_ra_t.Timeline.Order.{insert_sorted, insert_event-insert_sorted}
use music_ra_t.ControlMapper.{ConfigError, Entry, valid_binding, process}
use music_ra_t.ControlMapper.Output.{IsEntry, Fits, process_lem}
use music_ra_t.ControlMapper.Table.{configure, initial_entry, has_id, check_bindings}
use music_ra_t.ControlMapper.Table.Config.{IsValid, Distinct, configure_lem}
use music_ra_t.ActionMapper.{process_actions}
use music_ra_t.ActionMapper.Output.{requested, process_actions_lem}
use music_ra_t.ControlFeedbackRouter.{process_states}
use music_ra_t.ControlFeedbackRouter.Output.{feedbacks, process_states_lem}
use music_ra_t.WidgetUpdateMerger.{merge}
use music_ra_t.WidgetUpdateMerger.Output.{
  updates_of, updates_of_secondary, is_valid_source, is_valid_secondary, merge_lem,
}
use music_ra_t.DeckControlQuantizer.{Quantizing, quantize}
use music_ra_t.DeckControlQuantizer.Output.{Accounted}
use music_ra_t.DeckControlQuantizer.Contents.{Keeps, refused_count, placeless, quantize_lem}
use music_ra_t.Spsc.{push, pop}
use music_ra_t.Spsc.Steps.{Action, offer, produce, poll, consume, run, start}
use music_ra_t.Spsc.Steps.Fifo.{run-IsFifo}

insert_event-insert_sorted_example :
    insert_event (λ n. n) 4 (3 ∷ 4 ∷ 7 ∷ []) ≡ insert_sorted (λ n. n) 4 (3 ∷ 4 ∷ 7 ∷ [])
insert_event-insert_sorted_example =
    insert_event-insert_sorted (λ n. n) 4 (3 ∷ 4 ∷ 7 ∷ [])
      ((omega arith, (omega arith, tt)), ((omega arith, tt), (tt, tt)))

abbrev knob : CompiledControlBinding ℤ
knob = record {
  binding_id = 1;
  source_device_id = 2;
  source_endpoint_id = 3;
  target_parameter_id = 9;
  source_kind = 0;
  mode = 0;
  curve = 0;
  pickup = 0;
  source_minimum = pos 0;
  source_maximum = pos 1;
  target_minimum = pos 10;
  target_maximum = pos 20;
  scale = pos 1;
  offset = pos 0;
  dead_zone = pos 0;
  quantization = pos 0;
  hysteresis = pos 0;
  pickup_tolerance = pos 0;
  initial_value = pos 12;
  invert = false;
}

abbrev turned : ControlEvent ℤ
turned = record {
  source_device_id = 2;
  source_endpoint_id = 3;
  origin_id = 1;
  sample_offset = 5;
  kind = 0;
  value = pos 1;
  flags = 0;
}

abbrev control_block : Block (ControlEvent ℤ)
control_block = record {
  events = turned ∷ turned ∷ [];
  timestamp_ns = 1;
  sequence_number = 2;
  flags = 0;
}

abbrev table : List (Entry ℤ)
table = initial_entry integers knob ∷ []

table-IsEntry : All (IsEntry integers (knob ∷ [])) table
unfolding initial_entry
table-IsEntry = ((refl, ((refl, refl), (refl, refl)), mem-cons_self), tt)

process_lem_example :
    All (IsEntry integers (knob ∷ [])) (process integers 4 control_block 64 table).0
    × Fits integers
        (knob ∷ [])
        integers-IsOrdered
        4
        64
        (process integers 4 control_block 64 table).1
process_lem_example =
    process_lem integers (knob ∷ []) integers-IsOrdered 4 64 control_block table table-IsEntry

knob_accepted : (configure integers 8 (knob ∷ []) []).0 ≡ ConfigError.no_error
unfolding configure check_bindings valid_binding has_id
knob_accepted = refl

configure_lem_example :
    (length (knob ∷ []) ≤ 8)
    × IsValid integers (knob ∷ [])
    × Distinct integers (knob ∷ [])
    × All (IsEntry integers (knob ∷ [])) (configure integers 8 (knob ∷ []) []).1
configure_lem_example = configure_lem integers integers-IsOrdered 8 (knob ∷ []) [] knob_accepted

abbrev known_state : ParameterState ℤ
known_state = record {
  parameter_id = 9;
  source_endpoint_id = 3;
  origin_id = 1;
  binding_id = 0;
  value = pos 15;
}

abbrev play : CompiledActionBinding ℤ
play = record {
  binding_id = 1;
  source_device_id = 2;
  source_endpoint_id = 3;
  source_kind = 0;
  action_type = 0;
  quantization = 0;
  source_minimum = pos 0;
  source_maximum = pos 1;
  target_minimum = pos 0;
  target_maximum = pos 1;
  default_value = pos 1;
  ramp_frames = 0;
}

process_actions_lem_example :
    Capped 1
      (requested integers 64 (play ∷ []) control_block.events)
      (process_actions integers 1 control_block 64 (play ∷ [])).0.events
      (process_actions integers 1 control_block 64 (play ∷ [])).1.mapped_count
      (process_actions integers 1 control_block 64 (play ∷ [])).1.dropped_count
process_actions_lem_example = process_actions_lem integers 1 control_block 64 (play ∷ [])

abbrev lamp : CompiledControlFeedbackBinding
lamp = record {
  binding_id = 1;
  target_parameter_id = 9;
  destination_device_id = 2;
  destination_endpoint_id = 3;
  suppress_origin_id = 4;
}

abbrev state_block : Block (ParameterState ℤ)
state_block = record { events = known_state ∷ []; timestamp_ns = 1; sequence_number = 2; flags = 0 }

process_states_lem_example :
    Capped 4
      (feedbacks integers (lamp ∷ []) state_block.events)
      (process_states integers 4 state_block (lamp ∷ [])).0.events
      (process_states integers 4 state_block (lamp ∷ [])).1.routed_count
      (process_states integers 4 state_block (lamp ∷ [])).1.dropped_count
process_states_lem_example = process_states_lem integers 4 state_block (lamp ∷ [])

abbrev updates : Block ℕ
updates = record { events = 1 ∷ 2 ∷ []; timestamp_ns = 1; sequence_number = 2; flags = 0 }

merge_lem_example :
    Capped 3
      (updates_of updates ++ updates_of_secondary (some updates))
      (merge 3 updates (some updates)).0.events
      (merge 3 updates (some updates)).1.merged_count
      (merge 3 updates (some updates)).1.dropped_count
    × (has_flag (merge 3 updates (some updates)).0.flags 0
        ≡ not (is_valid_source updates || is_valid_secondary (some updates)))
merge_lem_example = merge_lem 3 updates (some updates)

abbrev on_the_bar : DeckControlEvent ℤ
on_the_bar = record {
  type = 0;
  sample_offset = 8;
  value = pos 1;
  ramp_frames = 0;
  quantization = 2;
}

abbrev deck_block : Block (DeckControlEvent ℤ)
deck_block = record { events = on_the_bar ∷ []; timestamp_ns = 1; sequence_number = 2; flags = 0 }

abbrev playing : TransportBlock ℤ
playing = record {
  beat_position = pos 0;
  tempo_bpm = pos 120;
  sample_rate_hz = 2;
  beats_per_bar = 4;
  state = 1;
}

abbrev quantized_deck : Quantizing ℤ
quantized_deck = record {
  events = (quantize integers 4 (some deck_block) (some playing) 64 []).0.1.events;
  dropped = (quantize integers 4 (some deck_block) (some playing) 64 []).0.0.dropped_count;
  pending = (quantize integers 4 (some deck_block) (some playing) 64 []).1;
}

quantize_lem_example :
    Accounted integers 4 64 1 quantized_deck
    × Keeps integers 4 64
        (refused_count integers 4 64 deck_block.events)
        (placeless integers 4 64 on_the_bar ∷ [])
        quantized_deck
quantize_lem_example = quantize_lem integers 4 64 (some deck_block) (some playing) [] (omega arith)

-- One value goes through, the next one waits, and the producer is about to write a third.
abbrev some_actions : List (Action ℕ)
some_actions =
    offer 7
    ∷ produce
    ∷ poll
    ∷ produce
    ∷ poll
    ∷ offer 8
    ∷ consume
    ∷ produce
    ∷ consume
    ∷ produce
    ∷ offer 9
    ∷ []

run-IsFifo_example :
    let s = run (start (0 ∷ 0 ∷ 0 ∷ [])) some_actions in
    (xs : List ℕ) × (s.sent ≡ s.got ++ xs)
    × (length xs < 3)
    × ((push s.queue 4).0 ≡ ltb (length xs + 1) 3)
    × ((pop s.queue).0 ≡ get_elem? xs 0)
run-IsFifo_example = run-IsFifo (0 ∷ 0 ∷ 0 ∷ []) some_actions 4 (omega arith)

abbrev note_block : Block (NoteEvent ℤ)
note_block = record {
  events =
      (record {
        source_endpoint_id = 3;
        note_id = 1;
        sample_offset = 4;
        type = 0;
        channel = 2;
        key = 60;
        value = pos 1;
      })
      ∷ [];
  timestamp_ns = 1;
  sequence_number = 2;
  flags = 0;
}

validate_note_event_block_iff_example :
    (validate_note_event_block integers note_block 64 ≡ NoteEventValidationError.no_error)
    ↔ ((has_flag note_block.flags 0 ≡ false) × Follows integers 64 0 note_block.events)
validate_note_event_block_iff_example = validate_note_event_block_iff integers note_block 64
