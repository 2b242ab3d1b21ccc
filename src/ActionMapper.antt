-- ===== src/ActionMapper.antt =====
-- include/musicrat/dsp/action_mapper.hpp: control events become deck control events. The table is
-- the list of the first `binding_count_` bindings; the capacities are arguments.
pub mod Output
use music_ra_t.Common.{
  ℕ, ◌+◌, List, [], ◌∷◌, ◌++◌, Bool, true, false, ◌&&◌, ◌||◌, not, length, ltb, leb, ◌==◌,
  if◌then◌else◌, add_u32,
}
use music_ra_t.Common.Floats.{Floats, clamp}
use music_ra_t.Protocol.{ControlEvent, Block, DeckControlEvent, CompiledActionBinding}

pub data ActionMapperConfigError : Type 0 where
  none : ActionMapperConfigError
  too_many_bindings : ActionMapperConfigError
  invalid_binding : ActionMapperConfigError
  duplicate_binding_id : ActionMapperConfigError

pub record ActionMapperResult : Type 0 where
  pub mapped_count : ℕ
  pub dropped_count : ℕ
  pub invalid_count : ℕ

pub record ActionProgress (F : Type 0) : Type 0 where
  pub events : List (DeckControlEvent F)
  pub result : ActionMapperResult

module _ (fl : Floats) where
  open fl use {F, is_finite, lt, le, add, sub, mul, div, of_ℕ}

  unfoldable valid_action : CompiledActionBinding F → Bool
  valid_action b =
      not (b.binding_id == 0)
      && not (b.source_device_id == 0)
      && not (b.source_endpoint_id == 0)
      && leb b.source_kind 6
      && leb b.action_type 10
      && leb b.quantization 2
      && is_finite b.source_minimum
      && is_finite b.source_maximum
      && lt b.source_minimum b.source_maximum
      && is_finite b.target_minimum
      && is_finite b.target_maximum
      && le b.target_minimum b.target_maximum
      && is_finite b.default_value

  unfoldable has_action_id : ℕ → List (CompiledActionBinding F) → Bool
  has_action_id i [] = false
  has_action_id i (b ∷ bs) = b.binding_id == i || has_action_id i bs

  unfoldable check_actions :
      List (CompiledActionBinding F) → List (CompiledActionBinding F) → ActionMapperConfigError
  check_actions before [] = ActionMapperConfigError.none
  check_actions before (b ∷ bs) =
      let rest = check_actions (before ++ b ∷ []) bs in
      if not (valid_action b)
      then ActionMapperConfigError.invalid_binding
      else if has_action_id b.binding_id before
      then ActionMapperConfigError.duplicate_binding_id
      else rest

  -- A table that is refused leaves the old one.
  unfoldable accepted_actions :
      List (CompiledActionBinding F)
      → ActionMapperConfigError
      → List (CompiledActionBinding F)
      → List (CompiledActionBinding F)
  accepted_actions bs ActionMapperConfigError.none old = bs
  accepted_actions bs _ old = old

  unfoldable configure_actions :
      ℕ
      → List (CompiledActionBinding F)
      → List (CompiledActionBinding F)
      → ActionMapperConfigError × List (CompiledActionBinding F)
  configure_actions max_bindings bs old =
      if ltb max_bindings (length bs)
      then (ActionMapperConfigError.too_many_bindings, old)
      else (check_actions [] bs, accepted_actions bs (check_actions [] bs) old)

  pub action_matches : CompiledActionBinding F → ControlEvent F → Bool
  action_matches b e =
      e.source_device_id == b.source_device_id
      && e.source_endpoint_id == b.source_endpoint_id
      && e.kind == b.source_kind

  -- A trigger, boolean or gate event acts when its value is positive.
  pub is_pressed : ControlEvent F → Bool
  is_pressed e = not ((e.kind == 6 || e.kind == 3 || e.kind == 5) && le e.value (of_ℕ 0))

  pub action_value : CompiledActionBinding F → ControlEvent F → F
  action_value b e =
      if b.source_kind == 0 || b.source_kind == 1 || b.source_kind == 2
      then add b.target_minimum (
          mul
            (clamp fl (div (sub e.value b.source_minimum) (sub b.source_maximum b.source_minimum))
              (of_ℕ 0) (of_ℕ 1))
            (sub b.target_maximum b.target_minimum))
      else b.default_value

  pub deck_event : CompiledActionBinding F → ControlEvent F → DeckControlEvent F
  deck_event b e = record {
    type = b.action_type;
    sample_offset = e.sample_offset;
    value = action_value b e;
    ramp_frames = b.ramp_frames;
    quantization = b.quantization;
  }

  -- One round of the loop over the bindings.
  pub visit_action :
      ℕ → ControlEvent F → CompiledActionBinding F → ActionProgress F → ActionProgress F
  visit_action max_events e b p =
      if not (action_matches b e) || not (is_pressed e)
      then p
      else if leb max_events (length p.events)
      then record p {
        result = record (p.result) { dropped_count = add_u32 p.result.dropped_count 1 };
      }
      else record {
        events = p.events ++ deck_event b e ∷ [];
        result = record (p.result) { mapped_count = add_u32 p.result.mapped_count 1 };
      }

  pub map_action :
      ℕ → ControlEvent F → List (CompiledActionBinding F) → ActionProgress F → ActionProgress F
  map_action max_events e [] p = p
  map_action max_events e (b ∷ bs) p = map_action max_events e bs (visit_action max_events e b p)

  pub map_actions :
      ℕ
      → ℕ
      → List (CompiledActionBinding F)
      → List (ControlEvent F)
      → ActionProgress F
      → ActionProgress F
  map_actions max_events frame_count bs [] p = p
  map_actions max_events frame_count bs (e ∷ es) p = map_actions max_events frame_count bs es (
      if leb frame_count e.sample_offset || not (is_finite e.value)
      then record p {
        result = record (p.result) { invalid_count = add_u32 p.result.invalid_count 1 };
      }
      else map_action max_events e bs p)

  pub process_actions :
      ℕ
      → Block (ControlEvent F)
      → ℕ
      → List (CompiledActionBinding F)
      → Block (DeckControlEvent F) × ActionMapperResult
  process_actions max_events input frame_count bs =
      let p = map_actions max_events frame_count bs input.events (record {
        events = [];
        result = record { mapped_count = 0; dropped_count = 0; invalid_count = 0 };
      }) in
      (
        record {
          events = p.events;
          timestamp_ns = input.timestamp_ns;
          sequence_number = input.sequence_number;
          flags = 0;
        },
        p.result,
      )
