-- ===== src/ActionMapper/Output.antt =====
-- `process` puts out the first of the actions that the events ask for.
use music_ra_t.Common.{
  ℕ, ◌≡◌, sym, inl, inr, List, [], ◌∷◌, ◌++◌, ◌&&◌, ◌||◌, not, arith, Bool-cases, if◌then◌else◌,
  length, leb, append_assoc, append-nil,
}
use music_ra_t.Common.Capped.{Capped, Capped-stored, Capped-dropped, Capped-none}
use music_ra_t.Common.Floats.{Floats}
use music_ra_t.Protocol.{Block, ControlEvent, DeckControlEvent, CompiledActionBinding}
use music_ra_t.ActionMapper.{
  ActionProgress, action_matches, is_pressed, deck_event, visit_action, map_action, map_actions,
  process_actions,
}

module _ (fl : Floats) where
  open fl use {F, is_finite}

  -- The deck event of each binding that matches the event, in the order of the table, unless the
  -- event is one that must be positive to act and is not.
  unfoldable pub actions_of :
      List (CompiledActionBinding F) → ControlEvent F → List (DeckControlEvent F)
  actions_of [] e = []
  actions_of (b ∷ bs) e =
      let rest = actions_of bs e in
      if action_matches fl b e && is_pressed fl e then deck_event fl b e ∷ rest else rest

  -- Those of all events that lie in the block and have a finite value.
  unfoldable pub requested :
      ℕ → List (CompiledActionBinding F) → List (ControlEvent F) → List (DeckControlEvent F)
  requested frame_count bs [] = []
  requested frame_count bs (e ∷ es) =
      let rest = requested frame_count bs es in
      if leb frame_count e.sample_offset || not (is_finite e.value)
      then rest
      else actions_of bs e ++ rest

  module _ (max_events : ℕ) where
    Kept : List (DeckControlEvent F) → ActionProgress F → Type 0
    Kept ws p = Capped max_events ws p.events p.result.mapped_count p.result.dropped_count

    visit_action-Kept :
        (e : ControlEvent F) (b : CompiledActionBinding F) (ws : List (DeckControlEvent F))
        (p : ActionProgress F)
        → Kept ws p
        → Kept (ws ++ actions_of (b ∷ []) e) (visit_action fl max_events e b p)
    unfolding visit_action actions_of Kept
    visit_action-Kept e b ws p h = elim (Bool-cases (action_matches fl b e)) [
      | inr m ↦ rw (m, append-nil ws) h
      | inl m ↦ elim (Bool-cases (is_pressed fl e)) [
        | inr k ↦ rw (m, k, append-nil ws) h
        | inl k ↦ elim (Bool-cases (leb max_events (length p.events))) [
          | inl t ↦
              rw (m, k, t) (Capped-dropped max_events ws p.events _ p.result.dropped_count _ t h)
          | inr t ↦
              rw (m, k, t) (Capped-stored max_events ws p.events p.result.mapped_count _ _ t h)
        ]
      ]
    ]

    actions_of-cons :
        (b : CompiledActionBinding F) (bs : List (CompiledActionBinding F)) (e : ControlEvent F)
        → actions_of (b ∷ []) e ++ actions_of bs e ≡ actions_of (b ∷ bs) e
    unfolding actions_of
    actions_of-cons b bs e = ground arith

    map_action-Kept :
        (e : ControlEvent F) (bs : List (CompiledActionBinding F)) (ws : List (DeckControlEvent F))
        (p : ActionProgress F)
        → Kept ws p
        → Kept (ws ++ actions_of bs e) (map_action fl max_events e bs p)
    unfolding map_action
    map_action-Kept e [] ws p h = unfold actions_of in rw (append-nil ws) h
    map_action-Kept e (b ∷ bs) ws p h =
        rw
          (
            sym (actions_of-cons b bs e),
            sym (append_assoc ws (actions_of (b ∷ []) e) (actions_of bs e)),
          )
          (map_action-Kept e bs (ws ++ actions_of (b ∷ []) e) (visit_action fl max_events e b p)
            (visit_action-Kept e b ws p h))

    map_actions-Kept :
        (frame_count : ℕ) (bs : List (CompiledActionBinding F)) (es : List (ControlEvent F))
        (ws : List (DeckControlEvent F)) (p : ActionProgress F)
        → Kept ws p
        → Kept (ws ++ requested frame_count bs es) (map_actions fl max_events frame_count bs es p)
    unfolding map_actions requested
    map_actions-Kept frame_count bs [] ws p h = rw (append-nil ws) h
    map_actions-Kept frame_count bs (e ∷ es) ws p h =
        elim (Bool-cases (leb frame_count e.sample_offset || not (is_finite e.value))) [
          | inl t ↦ rw t (map_actions-Kept frame_count bs es ws _ (unfold Kept in h))
          | inr t ↦
              rw (t, sym (append_assoc ws (actions_of bs e) (requested frame_count bs es)))
                (map_actions-Kept frame_count bs es (ws ++ actions_of bs e) _
                  (map_action-Kept e bs ws p h))
        ]

  -- The events that `process` puts out are the first `max_events` of the actions requested, in
  -- their order; `mapped_count` is their number and `dropped_count` that of the other actions,
  -- both modulo 2^32.
  pub process_actions_lem :
      (max_events : ℕ) (input : Block (ControlEvent F)) (frame_count : ℕ)
      (bs : List (CompiledActionBinding F))
      → Capped max_events
          (requested frame_count bs input.events)
          (process_actions fl max_events input frame_count bs).0.events
          (process_actions fl max_events input frame_count bs).1.mapped_count
          (process_actions fl max_events input frame_count bs).1.dropped_count
  unfolding process_actions Kept
  process_actions_lem max_events input frame_count bs =
      map_actions-Kept max_events frame_count bs input.events [] _ (Capped-none max_events)
