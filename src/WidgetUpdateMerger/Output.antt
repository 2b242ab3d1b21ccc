-- ===== src/WidgetUpdateMerger/Output.antt =====
-- The merged block is the first of the updates of the valid sources.
use music_ra_t.Common.{
  ℕ, ◌≡◌, refl, sym, inl, inr, List, [], ◌∷◌, ◌++◌, Bool, true, false, ◌||◌, not, Option, none,
  some, arith, Bool-cases, if◌then◌else◌, length, leb, append_assoc, append-nil, has_flag, set_flag,
}
use music_ra_t.Common.Capped.{Capped, Capped-stored, Capped-dropped, Capped-none}
use music_ra_t.Protocol.{Block}
use music_ra_t.WidgetUpdateMerger.{
  Merge, append_update, append_updates, append, append_secondary, started, merge,
}

module _ {E : Type 0} where
  -- The updates of a block, unless it is marked invalid.
  unfoldable pub updates_of : Block E → List E
  updates_of input = if has_flag input.flags 0 then [] else input.events

  unfoldable pub updates_of_secondary : Option (Block E) → List E
  updates_of_secondary none = []
  updates_of_secondary (some input) = updates_of input

  unfoldable pub is_valid_source : Block E → Bool
  is_valid_source input = not (has_flag input.flags 0)

  unfoldable pub is_valid_secondary : Option (Block E) → Bool
  is_valid_secondary none = false
  is_valid_secondary (some input) = is_valid_source input

bit_0 : (flags : ℕ) → has_flag (set_flag flags 1) 0 ≡ has_flag flags 0
bit_0 flags = ground arith

either_order : (p s : Bool) → (p || s) ≡ (s || (p || false))
either_order true true = refl
either_order true false = refl
either_order false true = refl
either_order false false = refl

module _ {E : Type 0} (max_events : ℕ) where
  Kept : List E → Bool → Merge E → Type 0
  Kept ws v m =
      Capped max_events ws m.output.events m.result.merged_count m.result.dropped_count
      × (m.has_valid_source ≡ v)
      × (has_flag m.output.flags 0 ≡ false)

  append_update-Kept :
      (x : E) (ws : List E) (v : Bool) (m : Merge E)
      → Kept ws v m
      → Kept (ws ++ x ∷ []) v (append_update max_events x m)
  unfolding append_update Kept
  append_update-Kept x ws v m (h, hv, hf) =
      elim (Bool-cases (leb max_events (length m.output.events))) [
        | inl t ↦ rw t (
          Capped-dropped max_events ws m.output.events _ _ x t h,
          hv,
          rw (bit_0 m.output.flags) hf,
        )
        | inr t ↦ rw t (Capped-stored max_events ws m.output.events _ _ x t h, hv, hf)
      ]

  append_updates-Kept :
      (xs ws : List E) (v : Bool) (m : Merge E)
      → Kept ws v m
      → Kept (ws ++ xs) v (append_updates max_events xs m)
  unfolding append_updates
  append_updates-Kept [] ws v m h = rw (append-nil ws) h
  append_updates-Kept (x ∷ xs) ws v m h =
      rw (sym (append_assoc ws (x ∷ []) xs))
        (append_updates-Kept xs (ws ++ x ∷ []) v _ (append_update-Kept x ws v m h))

  append-Kept :
      (input : Block E) (ws : List E) (v : Bool) (m : Merge E)
      → Kept ws v m
      → Kept (ws ++ updates_of input) (is_valid_source input || v) (append max_events input m)
  unfolding append updates_of is_valid_source Kept
  append-Kept input ws v m h = elim (Bool-cases (has_flag input.flags 0)) [
    | inl t ↦ rw (t, append-nil ws) h
    | inr t ↦ rw t (append_updates-Kept input.events ws true _ (begun h))
  ]
    where
      begun :
          Kept ws v m
          → Kept ws true (record m {
            output = record (m.output) {
              flags = if has_flag input.flags 1 then set_flag m.output.flags 1 else m.output.flags;
            };
            has_valid_source = true;
          })
      begun (k, kv, kf) = (
        k,
        refl,
        elim (Bool-cases (has_flag input.flags 1)) [
          | inl t ↦ rw (t, bit_0 m.output.flags) kf
          | inr t ↦ rw t kf
        ],
      )

  append_secondary-Kept :
      (secondary : Option (Block E)) (ws : List E) (v : Bool) (m : Merge E)
      → Kept ws v m
      → Kept
          (ws ++ updates_of_secondary secondary)
          (is_valid_secondary secondary || v)
          (append_secondary max_events secondary m)
  unfolding append_secondary updates_of_secondary is_valid_secondary
  append_secondary-Kept none ws v m h = rw (append-nil ws) h
  append_secondary-Kept (some input) ws v m h = append-Kept input ws v m h

  unstarted : (primary : Block E) → Kept [] false (started max_events primary)
  unfolding started Kept
  unstarted primary = (Capped-none max_events, refl, ground arith)

  marked :
      (ws : List E) (v : Bool) (m : Merge E)
      → Kept ws v m
      → Capped max_events ws m.output.events m.result.merged_count m.result.dropped_count
        × (has_flag (if m.has_valid_source then m.output.flags else set_flag m.output.flags 0) 0
            ≡ not v)
  unfolding Kept
  marked ws v m (h, hv, hf) = (h, ground arith)

  -- The merged block holds the first `max_events` of the updates of the two sources, those of the
  -- first source first and none of a source that is marked invalid; `merged_count` is their
  -- number and `dropped_count` that of the other updates, both modulo 2^32. The block is marked
  -- invalid exactly when neither source is valid.
  pub merge_lem :
      (primary : Block E) (secondary : Option (Block E))
      → Capped max_events
          (updates_of primary ++ updates_of_secondary secondary)
          (merge max_events primary secondary).0.events
          (merge max_events primary secondary).1.merged_count
          (merge max_events primary secondary).1.dropped_count
        × (has_flag (merge max_events primary secondary).0.flags 0
            ≡ not (is_valid_source primary || is_valid_secondary secondary))
  unfolding merge
  merge_lem primary secondary =
      rw (either_order (is_valid_source primary) (is_valid_secondary secondary)) (
        marked _ _ _ (
          append_secondary-Kept secondary _ _ _
            (append-Kept primary [] false (started max_events primary) (unstarted primary))))
