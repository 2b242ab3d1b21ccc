-- ===== src/Tests/Loads.antt =====
-- One load of a track, from the selection to the committed player state.
use music_ra_t.Common.{◌≡◌, refl, inl, [], ◌∷◌, true}
use music_ra_t.SelectionLoad.{
  MediaSelectionResult, Reply, Status, SelectionLoad, fresh, observe, terminal, awaiting_completion,
}
use music_ra_t.SelectionLoad.Lifecycle.{
  begins, accepts, observes, step, run, IsValid, IsEvidence, run-fresh-IsValid,
  step_keeps_selection, terminal-IsEvidence,
}

abbrev selection : MediaSelectionResult
selection = record {
  request_id = 3;
  snapshot_id = 4;
  error = 0;
  entry_kind = 1;
  entry_relative_path = 97 ∷ [];
  resolved_path = 47 ∷ 97 ∷ [];
}

abbrev reply : Reply
reply = record { accepted = true; request_id = 8; rejection = 0 }

abbrev committed : Status
committed = record {
  load_request_id = 8;
  load_state = 3;
  load_decode_error = 0;
  track_instance_id = 8;
}

run-fresh-IsValid_example :
    IsValid (run fresh (begins selection ∷ accepts reply ∷ observes committed ∷ []))
run-fresh-IsValid_example =
    run-fresh-IsValid (begins selection ∷ accepts reply ∷ observes committed ∷ [])

abbrev waiting : SelectionLoad
waiting = record {
  state = awaiting_completion;
  selection_id = 3;
  snapshot_id = 4;
  player_request_id = 8;
  load_state = 1;
  load_error = 0;
  rejection = 0;
  browse_error = 0;
}

step_keeps_selection_example :
    ((step waiting (observes committed)).selection_id ≡ 3)
    × ((step waiting (observes committed)).snapshot_id ≡ 4)
    × ((s : MediaSelectionResult)
        → observes committed ≡ begins s
        → step waiting (observes committed) ≡ waiting)
step_keeps_selection_example =
    step_keeps_selection waiting (observes committed) (inl refl) (λ e. cc)

is_over : (step waiting (observes committed)).state ≡ terminal
unfolding step observe
is_over = refl

terminal-IsEvidence_example : (s : Status) × (observes committed ≡ observes s) × IsEvidence 8 s
terminal-IsEvidence_example = terminal-IsEvidence waiting (observes committed) (λ e. cc) is_over

abbrev finished : SelectionLoad
finished = record {
  state = terminal;
  selection_id = 2;
  snapshot_id = 2;
  player_request_id = 7;
  load_state = 3;
  load_error = 0;
  rejection = 0;
  browse_error = 0;
}

-- The status of the load before.
abbrev stale : Status
stale = record { load_request_id = 7; load_state = 3; load_decode_error = 0; track_instance_id = 7 }

abbrev loading : Status
loading = record {
  load_request_id = 8;
  load_state = 1;
  load_decode_error = 0;
  track_instance_id = 7;
}
