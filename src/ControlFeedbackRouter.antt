-- ===== src/ControlFeedbackRouter.antt =====
-- include/musicrat/dsp/control_feedback_router.hpp: parameter states go back to control surfaces.
-- The table is the list of the first `binding_count_` bindings; the capacities are arguments.
pub mod Output
use music_ra_t.Common.{
  ℕ, List, [], ◌∷◌, ◌++◌, Bool, true, false, ◌&&◌, ◌||◌, not, length, ltb, leb, ◌==◌, if◌then◌else◌,
  add_u32, has_flag, set_flag,
}
use music_ra_t.Common.Floats.{Floats}
use music_ra_t.Protocol.{Block, ParameterState, ControlFeedback, CompiledControlFeedbackBinding}

pub data ControlFeedbackRouterConfigError : Type 0 where
  none : ControlFeedbackRouterConfigError
  too_many_bindings : ControlFeedbackRouterConfigError
  invalid_binding : ControlFeedbackRouterConfigError
  duplicate_binding : ControlFeedbackRouterConfigError

pub record ControlFeedbackRouterResult : Type 0 where
  pub routed_count : ℕ
  pub suppressed_count : ℕ
  pub dropped_count : ℕ

pub record RouteProgress (F : Type 0) : Type 0 where
  pub output : Block (ControlFeedback F)
  pub result : ControlFeedbackRouterResult

unfoldable is_invalid_route : CompiledControlFeedbackBinding → Bool
is_invalid_route b =
    b.binding_id == 0
    || b.target_parameter_id == 0
    || b.destination_device_id == 0
    || b.destination_endpoint_id == 0
    || b.suppress_origin_id == 0

unfoldable has_route : ℕ → List CompiledControlFeedbackBinding → Bool
has_route i [] = false
has_route i (b ∷ bs) = b.binding_id == i || has_route i bs

unfoldable check_routes :
    List CompiledControlFeedbackBinding
    → List CompiledControlFeedbackBinding
    → ControlFeedbackRouterConfigError
check_routes before [] = ControlFeedbackRouterConfigError.none
check_routes before (b ∷ bs) =
    let rest = check_routes (before ++ b ∷ []) bs in
    if is_invalid_route b
    then ControlFeedbackRouterConfigError.invalid_binding
    else if has_route b.binding_id before
    then ControlFeedbackRouterConfigError.duplicate_binding
    else rest

-- `binding_count_` is 0 after a table that is refused.
unfoldable accepted_routes :
    List CompiledControlFeedbackBinding
    → ControlFeedbackRouterConfigError
    → List CompiledControlFeedbackBinding
accepted_routes bs ControlFeedbackRouterConfigError.none = bs
accepted_routes bs _ = []

unfoldable configure_routes :
    ℕ
    → List CompiledControlFeedbackBinding
    → ControlFeedbackRouterConfigError × List CompiledControlFeedbackBinding
configure_routes max_bindings bs =
    if ltb max_bindings (length bs)
    then (ControlFeedbackRouterConfigError.too_many_bindings, [])
    else (check_routes [] bs, accepted_routes bs (check_routes [] bs))

module _ (fl : Floats) where
  open fl use {F, is_finite}

  pub is_routed : CompiledControlFeedbackBinding → ParameterState F → Bool
  is_routed b s =
      b.target_parameter_id == s.parameter_id && (s.binding_id == 0 || b.binding_id == s.binding_id)

  pub feedback : CompiledControlFeedbackBinding → ParameterState F → ControlFeedback F
  feedback b s = record {
    destination_device_id = b.destination_device_id;
    destination_endpoint_id = b.destination_endpoint_id;
    origin_id = s.origin_id;
    binding_id = b.binding_id;
    value = s.value;
  }

  -- One round of the loop over the bindings. CONTROL_FEEDBACK_BLOCK_OVERFLOW is bit 0.
  pub visit_route :
      ℕ → ParameterState F → CompiledControlFeedbackBinding → RouteProgress F → RouteProgress F
  visit_route max_events s b p =
      if not (is_routed b s)
      then p
      else if s.origin_id == b.suppress_origin_id
      then record p {
        result = record (p.result) { suppressed_count = add_u32 p.result.suppressed_count 1 };
      }
      else if leb max_events (length p.output.events)
      then record {
        output = record (p.output) { flags = set_flag p.output.flags 0 };
        result = record (p.result) { dropped_count = add_u32 p.result.dropped_count 1 };
      }
      else record {
        output = record (p.output) { events = p.output.events ++ feedback b s ∷ [] };
        result = record (p.result) { routed_count = add_u32 p.result.routed_count 1 };
      }

  pub route_state :
      ℕ → ParameterState F → List CompiledControlFeedbackBinding → RouteProgress F → RouteProgress F
  route_state max_events s [] p = p
  route_state max_events s (b ∷ bs) p = route_state max_events s bs (visit_route max_events s b p)

  pub route_states :
      ℕ
      → List CompiledControlFeedbackBinding
      → List (ParameterState F)
      → RouteProgress F
      → RouteProgress F
  route_states max_events bs [] p = p
  route_states max_events bs (s ∷ ss) p =
      route_states max_events bs ss (
        if s.parameter_id == 0 || not (is_finite s.value) then p else route_state max_events s bs p)

  -- PARAMETER_STATE_BLOCK_OVERFLOW is bit 0, CONTROL_FEEDBACK_BLOCK_SOURCE_OVERFLOW bit 1.
  pub process_states :
      ℕ
      → Block (ParameterState F)
      → List CompiledControlFeedbackBinding
      → Block (ControlFeedback F) × ControlFeedbackRouterResult
  process_states max_events input bs =
      let p = route_states max_events bs input.events (record {
        output = record {
          events = [];
          timestamp_ns = input.timestamp_ns;
          sequence_number = input.sequence_number;
          flags = if has_flag input.flags 0 then 2 else 0;
        };
        result = record { routed_count = 0; suppressed_count = 0; dropped_count = 0 };
      }) in
      (p.output, p.result)
