-- ===== src/ControlMapper.antt =====
-- include/musicrat/dsp/control_mapper.hpp: control events become parameter events, by a table of
-- bindings. `entries` are the pairs of `bindings_[i]` and `states_[i]` for i below
-- `binding_count_`. The capacities of the table and of the output block are arguments.
pub mod Values
pub mod Output
pub mod Table
use music_ra_t.Common.{
  ℕ, ◌+◌, List, [], ◌∷◌, ◌++◌, map, Bool, true, false, ◌&&◌, ◌||◌, not, Option, none, some, length,
  ltb, leb, ◌==◌, if◌then◌else◌, add_u32, has_flag, set_flag,
}
use music_ra_t.Common.Floats.{Floats, clamp, min_f}
use music_ra_t.Protocol.{
  ControlEvent, Block, ParameterEvent, ParameterState, CompiledControlBinding,
}
use music_ra_t.Timeline.{insert_event}

pub data ConfigError : Type 0 where
  no_error : ConfigError
  too_many_bindings : ConfigError
  invalid_binding : ConfigError
  duplicate_binding_id : ConfigError

pub record MapResult : Type 0 where
  pub mapped_count : ℕ
  pub dropped_count : ℕ
  pub invalid_count : ℕ

pub record BindingState (F : Type 0) : Type 0 where
  pub current_value : F
  pub last_emitted_value : F
  pub has_emitted : Bool
  pub input_active : Bool
  pub pickup_latched : Bool
  pub has_pickup_candidate : Bool
  pub last_pickup_candidate : F

pub record Entry (F : Type 0) : Type 0 where
  pub binding : CompiledControlBinding F
  pub state : BindingState F

-- What `process` works on: the output block and the counts.
pub record Progress (F : Type 0) : Type 0 where
  pub output : Block (ParameterEvent F)
  pub result : MapResult

module _ (fl : Floats) where
  open fl use {F, is_finite, lt, le, eq, add, sub, mul, div, abs, sqrt, round, copysign, of_ℕ, half}

  -- `x >= 0.0`
  abbrev non_negative : F → Bool
  non_negative x = le (of_ℕ 0) x

  unfoldable pub valid_binding : CompiledControlBinding F → Bool
  valid_binding b =
      not (b.binding_id == 0)
      && not (b.source_device_id == 0)
      && not (b.source_endpoint_id == 0)
      && not (b.target_parameter_id == 0)
      && leb b.source_kind 6
      && leb b.mode 6
      && leb b.curve 2
      && leb b.pickup 1
      && is_finite b.source_minimum
      && is_finite b.source_maximum
      && lt b.source_minimum b.source_maximum
      && is_finite b.target_minimum
      && is_finite b.target_maximum
      && le b.target_minimum b.target_maximum
      && is_finite b.scale
      && is_finite b.offset
      && is_finite b.dead_zone
      && non_negative b.dead_zone
      && lt b.dead_zone (of_ℕ 1)
      && is_finite b.quantization
      && non_negative b.quantization
      && is_finite b.hysteresis
      && non_negative b.hysteresis
      && is_finite b.pickup_tolerance
      && non_negative b.pickup_tolerance
      && is_finite b.initial_value

  pub valid_event : ControlEvent F → ℕ → Bool
  valid_event e frame_count =
      not (e.source_device_id == 0)
      && not (e.source_endpoint_id == 0)
      && leb e.kind 6
      && ltb e.sample_offset frame_count
      && is_finite e.value

  -- The curves are 0 linear, 1 logarithmic, 2 exponential.
  pub apply_curve : F → ℕ → F
  apply_curve value curve =
      if curve == 1 then sqrt value else if curve == 2 then mul value value else value

  pub apply_dead_zone : F → F → F
  apply_dead_zone value dead_zone =
      if eq dead_zone (of_ℕ 0)
      then value
      else if le value dead_zone
      then of_ℕ 0
      else div (sub value dead_zone) (sub (of_ℕ 1) dead_zone)

  pub finalize : CompiledControlBinding F → F → F
  finalize b value =
      clamp fl
        (if lt (of_ℕ 0) b.quantization
          then mul (round (div value b.quantization)) b.quantization
          else value)
        b.target_minimum b.target_maximum

  -- The value to emit, if it differs enough from the last one.
  pub emit_if_changed : CompiledControlBinding F → BindingState F → F → BindingState F × Option F
  emit_if_changed b s value =
      let current = finalize b value in
      if s.has_emitted && lt (abs (sub current s.last_emitted_value)) b.hysteresis
      then (record s { current_value = current }, none)
      else (
        record s { current_value = current; last_emitted_value = current; has_emitted = true },
        some current,
      )

  pub pickup_allows : CompiledControlBinding F → BindingState F → F → BindingState F × Bool
  pickup_allows b s candidate =
      if s.pickup_latched
      then (s, true)
      else let latched =
          le (abs (sub candidate s.current_value)) b.pickup_tolerance
          || s.has_pickup_candidate
            && le
                (mul (sub s.last_pickup_candidate s.current_value) (sub candidate s.current_value))
                (of_ℕ 0) in
        (
          record s {
            last_pickup_candidate = candidate;
            has_pickup_candidate = true;
            pickup_latched = latched;
          },
          latched,
        )

  -- The last lines of `map_value`, for the absolute and the choice mode.
  pub picked_up : CompiledControlBinding F → F → BindingState F × Bool → BindingState F × Option F
  picked_up b candidate (s, true) = emit_if_changed b s candidate
  picked_up b candidate (s, false) = (s, none)

  pub absolute_candidate : CompiledControlBinding F → F → F
  absolute_candidate b input =
      let range =
        clamp fl (div (sub input b.source_minimum) (sub b.source_maximum b.source_minimum)) (of_ℕ 0)
          (of_ℕ 1) in
      let turned = if b.invert then sub (of_ℕ 1) range else range in
      let shaped = apply_curve (apply_dead_zone turned b.dead_zone) b.curve in
      let normalized = clamp fl (add (mul shaped b.scale) b.offset) (of_ℕ 0) (of_ℕ 1) in
      finalize b (add b.target_minimum (mul normalized (sub b.target_maximum b.target_minimum)))

  -- The modes are 0 absolute, 1 relative, 2 toggle, 3 momentary, 4 gate, 5 trigger, 6 choice.
  pub map_value : CompiledControlBinding F → BindingState F → F → BindingState F × Option F
  map_value b s input =
      let active = lt (mul (add b.source_minimum b.source_maximum) half) input in
      let toggled = record s { input_active = active } in
      let midpoint = mul (add b.target_minimum b.target_maximum) half in
      let magnitude = apply_dead_zone (min_f fl (abs input) (of_ℕ 1)) b.dead_zone in
      let curved = copysign (apply_curve magnitude b.curve) input in
      let candidate = absolute_candidate b input in
      if b.mode == 2
      then if active && not s.input_active
        then emit_if_changed b toggled
            (if lt midpoint s.current_value then b.target_minimum else b.target_maximum)
        else (toggled, none)
      else if b.mode == 5
      then emit_if_changed b s b.target_maximum
      else if b.mode == 3 || b.mode == 4
      then emit_if_changed b s (if active then b.target_maximum else b.target_minimum)
      else if b.mode == 1
      then emit_if_changed b s (add (add s.current_value (mul curved b.scale)) b.offset)
      else picked_up b candidate (pickup_allows b s candidate)

  pub matches : CompiledControlBinding F → ControlEvent F → Bool
  matches b e =
      b.source_device_id == e.source_device_id
      && b.source_endpoint_id == e.source_endpoint_id
      && b.source_kind == e.kind

  pub parameter_event : CompiledControlBinding F → ControlEvent F → F → ParameterEvent F
  parameter_event b e value = record {
    source_endpoint_id = e.source_endpoint_id;
    parameter_id = b.target_parameter_id;
    sample_offset = e.sample_offset;
    value = value;
    origin_id = e.origin_id;
    binding_id = b.binding_id;
  }

  pub mapped : ParameterEvent F → Progress F → Progress F
  mapped pe p = record {
    output = record (p.output) { events = insert_event (λ e. e.sample_offset) pe p.output.events };
    result = record (p.result) { mapped_count = add_u32 p.result.mapped_count 1 };
  }

  -- PARAMETER_EVENT_BLOCK_OVERFLOW is bit 0.
  pub dropped : Progress F → Progress F
  dropped p = record {
    output = record (p.output) { flags = set_flag p.output.flags 0 };
    result = record (p.result) { dropped_count = add_u32 p.result.dropped_count 1 };
  }

  -- One binding that matches, after `map_value`. The new state is not kept when the block is full.
  pub emitted :
      ℕ → ControlEvent F → Entry F → BindingState F × Option F → Progress F → Entry F × Progress F
  emitted max_events e x (s, none) p = (record x { state = s }, p)
  emitted max_events e x (s, some value) p =
      if leb max_events (length p.output.events)
      then (x, dropped p)
      else (record x { state = s }, mapped (parameter_event x.binding e value) p)

  pub visit : ℕ → ControlEvent F → Entry F → Progress F → Entry F × Progress F
  visit max_events e x p =
      if matches x.binding e
      then emitted max_events e x (map_value x.binding x.state e.value) p
      else (x, p)

  -- The inner loop of `process`, over the bindings.
  pub map_event : ℕ → ControlEvent F → List (Entry F) → Progress F → List (Entry F) × Progress F
  map_event max_events e [] p = ([], p)
  map_event max_events e (x ∷ xs) p =
      let now = visit max_events e x p in
      let rest = map_event max_events e xs now.1 in (now.0 ∷ rest.0, rest.1)

  pub count_invalid : Progress F → Progress F
  count_invalid p = record p {
    result = record (p.result) { invalid_count = add_u32 p.result.invalid_count 1 };
  }

  -- The outer loop, over the events.
  pub map_events :
      ℕ → ℕ → List (ControlEvent F) → List (Entry F) → Progress F → List (Entry F) × Progress F
  map_events max_events frame_count [] xs p = (xs, p)
  map_events max_events frame_count (e ∷ es) xs p =
      let here = map_event max_events e xs p in
      let on = map_events max_events frame_count es here.0 here.1 in
      let skip = map_events max_events frame_count es xs (count_invalid p) in
      if valid_event e frame_count then on else skip

  -- CONTROL_EVENT_BLOCK_OVERFLOW is bit 0, PARAMETER_EVENT_BLOCK_SOURCE_OVERFLOW bit 1.
  pub begin : Block (ControlEvent F) → Progress F
  begin input = record {
    output = record {
      events = [];
      timestamp_ns = input.timestamp_ns;
      sequence_number = input.sequence_number;
      flags = if has_flag input.flags 0 then 2 else 0;
    };
    result = record { mapped_count = 0; dropped_count = 0; invalid_count = 0 };
  }

  pub process : ℕ → Block (ControlEvent F) → ℕ → List (Entry F) → List (Entry F) × Progress F
  process max_events input frame_count xs =
      map_events max_events frame_count input.events xs (begin input)
