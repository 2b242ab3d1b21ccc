-- ===== src/SelectionLoad/Lifecycle.antt =====
-- What holds of a load through any history of calls, and what each outcome is evidence of.
pub mod Completion
use music_ra_t.Common.{ℕ, ◌≤◌, ◌<◌, ◌≡◌, ◌≢◌, refl, ◌⊎◌, List, [], ◌∷◌, Bool, true, false, arith}
use music_ra_t.SelectionLoad.{
  awaiting_acceptance, awaiting_completion, terminal, rejected, validation_failed, outcome_unknown,
  MediaSelectionResult, Reply, Status, SelectionLoad, fresh, is_busy, refuses, begin, accept,
  observe, mark_outcome_unknown, reset_for_new_player_session, unavailable_before_send,
}

pub data Call : Type 0 where
  begins : MediaSelectionResult → Call
  accepts : Reply → Call
  observes : Status → Call
  loses_outcome : Call
  resets : Call
  finds_unavailable : Call

unfoldable pub step : SelectionLoad → Call → SelectionLoad
unfolding begin accept observe mark_outcome_unknown reset_for_new_player_session
    unavailable_before_send
step l (begins s) = (begin l s []).2
step l (accepts r) = (accept l r).1
step l (observes s) = (observe l s).1
step l loses_outcome = mark_outcome_unknown l
step l resets = reset_for_new_player_session l
step l finds_unavailable = unavailable_before_send l

pub run : SelectionLoad → List Call → SelectionLoad
run l [] = l
run l (c ∷ cs) = run (step l c) cs

-- What the state says of the other members.
pub record IsValid (l : SelectionLoad) : Type 0 where
  pub identified : l.state ≡ awaiting_completion → 0 < l.player_request_id
  pub unidentified : l.state ≡ awaiting_acceptance → l.player_request_id ≡ 0
  pub selected : is_busy l.state ≡ true → (0 < l.selection_id) × (0 < l.snapshot_id)
  pub completed :
      l.state ≡ terminal → (0 < l.player_request_id) × (3 ≤ l.load_state) × (l.load_state ≤ 6)
  pub pending : l.state ≡ awaiting_completion → l.load_state < 3
  pub explained : l.state ≡ rejected → (1 ≤ l.rejection) × (l.rejection ≤ 3)
  pub faulted : l.state ≡ validation_failed → 0 < l.browse_error
  pub doubtful : l.state ≡ outcome_unknown → l.load_state < 3
  pub waiting : l.state ≡ awaiting_acceptance → l.load_state ≡ 0

step-IsValid : (l : SelectionLoad) (c : Call) → IsValid l → IsValid (step l c)
unfolding step refuses
step-IsValid l (begins s) v = ground arith
step-IsValid l (accepts r) v = ground arith
step-IsValid l (observes s) v = ground arith
step-IsValid l loses_outcome v = ground arith
step-IsValid l resets v = ground arith
step-IsValid l finds_unavailable v = ground arith

fresh-IsValid : IsValid fresh
unfolding fresh
fresh-IsValid = ground arith

run-IsValid : (l : SelectionLoad) (cs : List Call) → IsValid l → IsValid (run l cs)
unfolding run
run-IsValid l [] v = v
run-IsValid l (c ∷ cs) v = run-IsValid (step l c) cs (step-IsValid l c v)

-- After any history of calls the members agree with the state: a load that awaits completion, or is
-- terminal, has the player's request id; a terminal one has a final load state and a pending one has
-- not; a rejected one has a reason, and a refused selection an error.
pub run-fresh-IsValid : (cs : List Call) → IsValid (run fresh cs)
run-fresh-IsValid cs = run-IsValid fresh cs fresh-IsValid

-- While a load is under way, or its outcome is unknown, no call but a reset replaces its selection,
-- and a new selection changes nothing.
pub step_keeps_selection :
    (l : SelectionLoad) (c : Call)
    → (is_busy l.state ≡ true) ⊎ (l.state ≡ outcome_unknown)
    → c ≢ resets
    → ((step l c).selection_id ≡ l.selection_id)
      × ((step l c).snapshot_id ≡ l.snapshot_id)
      × ((s : MediaSelectionResult) → c ≡ begins s → step l c ≡ l)
unfolding step
step_keeps_selection l (begins s) h n = (ground arith, ground arith, λ t e. ground arith)
step_keeps_selection l (accepts r) h n = (ground arith, ground arith, λ t e. cc)
step_keeps_selection l (observes s) h n = (ground arith, ground arith, λ t e. cc)
step_keeps_selection l loses_outcome h n = (ground arith, ground arith, λ t e. cc)
step_keeps_selection l resets h n = absurd (n refl)
step_keeps_selection l finds_unavailable h n = (ground arith, ground arith, λ t e. cc)

-- What a status must say for the load with the given request id to be over.
pub record IsEvidence (id : ℕ) (s : Status) : Type 0 where
  pub known : 0 < id
  pub ours : s.load_request_id ≡ id
  pub over : 3 ≤ s.load_state
  pub defined : s.load_state ≤ 6
  pub committed_here : s.load_state ≡ 3 → s.track_instance_id ≡ id

observe-IsEvidence :
    (l : SelectionLoad) (s : Status)
    → l.state ≢ terminal
    → (observe l s).1.state ≡ terminal
    → IsEvidence l.player_request_id s
unfolding observe
observe-IsEvidence l s n e = ground arith

-- A load becomes terminal by one kind of step only: a status of the player, under the request id
-- that the player gave, with a final state, and for a committed track under that id too.
pub terminal-IsEvidence :
    (l : SelectionLoad) (c : Call)
    → l.state ≢ terminal
    → (step l c).state ≡ terminal
    → (s : Status) × (c ≡ observes s) × IsEvidence l.player_request_id s
unfolding step
terminal-IsEvidence l (begins s) n e = absurd (ground arith)
terminal-IsEvidence l (accepts r) n e = absurd (ground arith)
terminal-IsEvidence l (observes s) n e = (s, refl, observe-IsEvidence l s n e)
terminal-IsEvidence l loses_outcome n e = absurd (ground arith)
terminal-IsEvidence l resets n e = absurd (ground arith)
terminal-IsEvidence l finds_unavailable n e = absurd (ground arith)
