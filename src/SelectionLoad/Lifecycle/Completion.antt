-- ===== src/SelectionLoad/Lifecycle/Completion.antt =====
-- A load that the player accepts and finishes completes, whatever the load before it was.
use music_ra_t.Common.{ℕ, ◌≤◌, ◌≡◌, ◌≢◌, ◌⊎◌}
use music_ra_t.SelectionLoad.{
  awaiting_acceptance, awaiting_completion, terminal, outcome_unknown, Status, SelectionLoad,
}
use music_ra_t.SelectionLoad.Lifecycle.{Call, observes, loses_outcome}

-- What may come between the command and its reply: statuses of any kind, and the loss of the
-- connection.
abbrev pub IsEarly : Call → Type 0
IsEarly (observes t) = Unit {0}
IsEarly loses_outcome = Unit {0}
IsEarly _ = ⊥

-- What may come between the reply and the final status: statuses of other loads, statuses of this
-- one that are not final, and the loss of the connection.
abbrev pub IsLate : ℕ → Call → Type 0
IsLate id (observes t) =
    (t.load_request_id ≢ id)
    ⊎ ((1 ≤ t.load_state) × (t.load_state ≤ 2) × (t.load_decode_error ≤ 10))
IsLate id loses_outcome = Unit {0}
IsLate id _ = ⊥

-- The command is out, or out and given up for lost, and nothing is known of the player's id.
record Waits (selection : ℕ) (l : SelectionLoad) : Type 0 where
  place : (l.state ≡ awaiting_acceptance) ⊎ (l.state ≡ outcome_unknown)
  nameless : l.player_request_id ≡ 0
  selects : l.selection_id ≡ selection

-- The player has given its id.
record Runs (selection id : ℕ) (l : SelectionLoad) : Type 0 where
  place : (l.state ≡ awaiting_completion) ⊎ (l.state ≡ outcome_unknown)
  named : l.player_request_id ≡ id
  selects : l.selection_id ≡ selection

-- The load is over, with what the status says of it.
pub record IsFinished (selection : ℕ) (t : Status) (l : SelectionLoad) : Type 0 where
  pub over : l.state ≡ terminal
  pub load_state : l.load_state ≡ t.load_state
  pub load_error : l.load_error ≡ t.load_decode_error
  pub named : l.player_request_id ≡ t.load_request_id
  pub selects : l.selection_id ≡ selection
