-- ===== src/ControlFeedbackRouter/Output.antt =====
-- `process` puts out the first of the feedbacks that the states ask for, and none to the surface
-- that a change came from.
use music_ra_t.Common.{
  ℕ, ◌≡◌, sym, inl, inr, List, [], ◌∷◌, ◌++◌, ◌&&◌, ◌||◌, not, arith, Bool-cases, ◌==◌,
  if◌then◌else◌, length, leb, append_assoc, append-nil,
}
use music_ra_t.Common.Capped.{Capped, Capped-stored, Capped-dropped, Capped-none}
use music_ra_t.Common.Floats.{Floats}
use music_ra_t.Protocol.{Block, ParameterState, ControlFeedback, CompiledControlFeedbackBinding}
use music_ra_t.ControlFeedbackRouter.{
  RouteProgress, is_routed, feedback, visit_route, route_state, route_states, process_states,
}

module _ (fl : Floats) where
  open fl use {F, is_finite}

  -- The feedback of each binding for the parameter, in the order of the table, but for the
  -- bindings whose surface is where the change came from.
  unfoldable pub feedbacks_of :
      List CompiledControlFeedbackBinding → ParameterState F → List (ControlFeedback F)
  feedbacks_of [] s = []
  feedbacks_of (b ∷ bs) s =
      let rest = feedbacks_of bs s in
      if is_routed fl b s && not (s.origin_id == b.suppress_origin_id)
      then feedback fl b s ∷ rest
      else rest

  -- Those of all states with a parameter and a finite value.
  unfoldable pub feedbacks :
      List CompiledControlFeedbackBinding → List (ParameterState F) → List (ControlFeedback F)
  feedbacks bs [] = []
  feedbacks bs (s ∷ ss) =
      let rest = feedbacks bs ss in
      if s.parameter_id == 0 || not (is_finite s.value) then rest else feedbacks_of bs s ++ rest

  module _ (max_events : ℕ) where
    Kept : List (ControlFeedback F) → RouteProgress F → Type 0
    Kept ws p = Capped max_events ws p.output.events p.result.routed_count p.result.dropped_count

    visit_route-Kept :
        (s : ParameterState F) (b : CompiledControlFeedbackBinding) (ws : List (ControlFeedback F))
        (p : RouteProgress F)
        → Kept ws p
        → Kept (ws ++ feedbacks_of (b ∷ []) s) (visit_route fl max_events s b p)
    unfolding visit_route feedbacks_of Kept
    visit_route-Kept s b ws p h = elim (Bool-cases (is_routed fl b s)) [
      | inr m ↦ rw (m, append-nil ws) h
      | inl m ↦ elim (Bool-cases (s.origin_id == b.suppress_origin_id)) [
        | inl k ↦ rw (m, k, append-nil ws) h
        | inr k ↦ elim (Bool-cases (leb max_events (length p.output.events))) [
          | inl t ↦
              rw (m, k, t)
                (Capped-dropped max_events ws p.output.events _ p.result.dropped_count _ t h)
          | inr t ↦
              rw (m, k, t)
                (Capped-stored max_events ws p.output.events p.result.routed_count _ _ t h)
        ]
      ]
    ]

    feedbacks_of-cons :
        (b : CompiledControlFeedbackBinding) (bs : List CompiledControlFeedbackBinding)
        (s : ParameterState F)
        → feedbacks_of (b ∷ []) s ++ feedbacks_of bs s ≡ feedbacks_of (b ∷ bs) s
    unfolding feedbacks_of
    feedbacks_of-cons b bs s = ground arith

    route_state-Kept :
        (s : ParameterState F) (bs : List CompiledControlFeedbackBinding)
        (ws : List (ControlFeedback F)) (p : RouteProgress F)
        → Kept ws p
        → Kept (ws ++ feedbacks_of bs s) (route_state fl max_events s bs p)
    unfolding route_state
    route_state-Kept s [] ws p h = unfold feedbacks_of in rw (append-nil ws) h
    route_state-Kept s (b ∷ bs) ws p h =
        rw
          (
            sym (feedbacks_of-cons b bs s),
            sym (append_assoc ws (feedbacks_of (b ∷ []) s) (feedbacks_of bs s)),
          )
          (route_state-Kept s bs (ws ++ feedbacks_of (b ∷ []) s) (visit_route fl max_events s b p)
            (visit_route-Kept s b ws p h))

    route_states-Kept :
        (bs : List CompiledControlFeedbackBinding) (ss : List (ParameterState F))
        (ws : List (ControlFeedback F)) (p : RouteProgress F)
        → Kept ws p
        → Kept (ws ++ feedbacks bs ss) (route_states fl max_events bs ss p)
    unfolding route_states feedbacks
    route_states-Kept bs [] ws p h = rw (append-nil ws) h
    route_states-Kept bs (s ∷ ss) ws p h =
        elim (Bool-cases (s.parameter_id == 0 || not (is_finite s.value))) [
          | inl t ↦ rw t (route_states-Kept bs ss ws p h)
          | inr t ↦
              rw (t, sym (append_assoc ws (feedbacks_of bs s) (feedbacks bs ss)))
                (route_states-Kept bs ss (ws ++ feedbacks_of bs s) _ (route_state-Kept s bs ws p h))
        ]

  -- The events that `process` puts out are the first `max_events` of the feedbacks of the states,
  -- in their order; `routed_count` is their number and `dropped_count` that of the other
  -- feedbacks, both modulo 2^32.
  pub process_states_lem :
      (max_events : ℕ) (input : Block (ParameterState F)) (bs : List CompiledControlFeedbackBinding)
      → Capped max_events
          (feedbacks bs input.events)
          (process_states fl max_events input bs).0.events
          (process_states fl max_events input bs).1.routed_count
          (process_states fl max_events input bs).1.dropped_count
  unfolding process_states Kept
  process_states_lem max_events input bs =
      route_states-Kept max_events bs input.events [] _ (Capped-none max_events)
