-- ===== src/SelectionLoad.antt =====
-- include/musicrat/control/selection_load.hpp: one load at a time, from the browser's selection
-- through the player's reply to its status. A `fixed_string` is the list of its bytes; the
-- members of messages that this class does not read are left out.
pub mod Lifecycle
use music_ra_t.Common.{
  ℕ, List, [], ◌∷◌, Bool, true, false, not, ◌&&◌, ◌||◌, ltb, leb, ◌==◌, if◌then◌else◌,
}

pub data State : Type 0 where
  idle awaiting_acceptance awaiting_completion terminal rejected : State
  validation_failed invalid_reply outcome_unknown unavailable : State

-- `MediaLoadState`, `MediaLoadRejection`, `MediaBrowseError` and `PlaybackDecodeError` are bytes.
abbrev pub media_load_idle : ℕ
media_load_idle = 0

abbrev pub media_load_committed : ℕ
media_load_committed = 3

abbrev pub media_load_cancelled : ℕ
media_load_cancelled = 6

abbrev pub media_load_rejection_none : ℕ
media_load_rejection_none = 0

abbrev pub media_load_rejection_id_exhausted : ℕ
media_load_rejection_id_exhausted = 3

abbrev pub media_browse_error_none : ℕ
media_browse_error_none = 0

abbrev pub media_browse_error_invalid_request : ℕ
media_browse_error_invalid_request = 1

abbrev pub media_directory_entry_file : ℕ
media_directory_entry_file = 1

abbrev pub playback_decode_error_none : ℕ
playback_decode_error_none = 0

abbrev pub playback_decode_error_pool_failure : ℕ
playback_decode_error_pool_failure = 10

pub record MediaSelectionResult : Type 0 where
  pub request_id : ℕ
  pub snapshot_id : ℕ
  pub error : ℕ
  pub entry_kind : ℕ
  pub entry_relative_path : List ℕ
  pub resolved_path : List ℕ

-- `LoadMedia::Reply`
pub record Reply : Type 0 where
  pub accepted : Bool
  pub request_id : ℕ
  pub rejection : ℕ

-- What `observe` reads of a `PlaybackStatusBlock`.
pub record Status : Type 0 where
  pub load_request_id : ℕ
  pub load_state : ℕ
  pub load_decode_error : ℕ
  pub track_instance_id : ℕ

pub record SelectionLoad : Type 0 where
  pub state : State
  pub selection_id : ℕ
  pub snapshot_id : ℕ
  pub player_request_id : ℕ
  pub load_state : ℕ
  pub load_error : ℕ
  pub rejection : ℕ
  pub browse_error : ℕ

pub fresh : SelectionLoad
fresh = record {
  state = idle;
  selection_id = 0;
  snapshot_id = 0;
  player_request_id = 0;
  load_state = media_load_idle;
  load_error = playback_decode_error_none;
  rejection = media_load_rejection_none;
  browse_error = media_browse_error_none;
}

abbrev pub is_busy : State → Bool
is_busy awaiting_acceptance = true
is_busy awaiting_completion = true
is_busy _ = false

abbrev pub is_outcome_unknown : State → Bool
is_outcome_unknown outcome_unknown = true
is_outcome_unknown _ = false

abbrev pub is_invalid_reply : State → Bool
is_invalid_reply invalid_reply = true
is_invalid_reply _ = false

abbrev pub is_awaiting_acceptance : State → Bool
is_awaiting_acceptance awaiting_acceptance = true
is_awaiting_acceptance _ = false

abbrev pub is_awaiting_completion : State → Bool
is_awaiting_completion awaiting_completion = true
is_awaiting_completion _ = false

abbrev pub is_nil : List ℕ → Bool
is_nil [] = true
is_nil (c ∷ cs) = false

unfoldable pub contains_nul : List ℕ → Bool
contains_nul [] = false
contains_nul (c ∷ cs) = c == 0 || contains_nul cs

pub busy : SelectionLoad → Bool
busy l = is_busy l.state

-- The validation of `begin`: whether the selection is refused.
unfoldable pub refuses : MediaSelectionResult → Bool
refuses s =
    not (s.error == media_browse_error_none)
    || (s.request_id == 0
        || (s.snapshot_id == 0
            || (not (s.entry_kind == media_directory_entry_file)
                || (is_nil s.entry_relative_path
                    || (is_nil s.resolved_path || contains_nul s.resolved_path)))))

-- The command's path is the argument `command`, and is returned beside the result.
pub begin : SelectionLoad → MediaSelectionResult → List ℕ → Bool × List ℕ × SelectionLoad
unfolding busy
begin l s command =
    let started : SelectionLoad = record l {
      selection_id = s.request_id;
      snapshot_id = s.snapshot_id;
      player_request_id = 0;
      load_state = media_load_idle;
      load_error = playback_decode_error_none;
      rejection = media_load_rejection_none;
      browse_error = s.error;
    } in
    if busy l || (is_outcome_unknown l.state || is_invalid_reply l.state)
    then (false, command, l)
    else if refuses s
    then (
      false,
      [],
      record started {
        browse_error =
            if s.error == media_browse_error_none
            then media_browse_error_invalid_request
            else s.error;
        state = validation_failed;
      },
    )
    else (true, s.resolved_path, record started { state = awaiting_acceptance })

pub accept : SelectionLoad → Reply → Bool × SelectionLoad
accept l r =
    let uncertain = is_outcome_unknown l.state && l.player_request_id == 0 in
    if not (is_awaiting_acceptance l.state) && not uncertain
    then (false, l)
    else if r.accepted
    then (if r.request_id == 0 || not (r.rejection == media_load_rejection_none)
        then (false, record l { state = invalid_reply })
        else (
          true,
          record l {
            player_request_id = r.request_id;
            state = if uncertain then l.state else awaiting_completion;
          },
        ))
    else (if not (r.request_id == 0)
          || (r.rejection == media_load_rejection_none
              || ltb media_load_rejection_id_exhausted r.rejection)
        then (false, record l { state = invalid_reply })
        else (true, record l { rejection = r.rejection; state = rejected }))

unfoldable pub observe : SelectionLoad → Status → Bool × SelectionLoad
observe l s =
    if not (is_awaiting_completion l.state) && not (is_outcome_unknown l.state)
    then (false, l)
    else if l.player_request_id == 0 || not (s.load_request_id == l.player_request_id)
    then (false, l)
    else if ltb media_load_cancelled s.load_state
        || (ltb playback_decode_error_pool_failure s.load_decode_error
            || (s.load_state == media_load_idle
                || (s.load_state == media_load_committed
                    && not (s.track_instance_id == l.player_request_id))))
    then (false, record l { state = invalid_reply })
    else (
      true,
      record l {
        load_state = s.load_state;
        load_error = s.load_decode_error;
        state = if leb media_load_committed s.load_state then terminal else l.state;
      },
    )

pub mark_outcome_unknown : SelectionLoad → SelectionLoad
unfolding busy
mark_outcome_unknown l = if busy l then record l { state = outcome_unknown } else l

pub reset_for_new_player_session : SelectionLoad → SelectionLoad
unfolding fresh
reset_for_new_player_session l = fresh

pub unavailable_before_send : SelectionLoad → SelectionLoad
unavailable_before_send l =
    if is_awaiting_acceptance l.state then record l { state = unavailable } else l
