-- ===== src/WidgetUpdateMerger.antt =====
-- include/musicrat/dsp/widget_update_merger.hpp: the updates of two blocks in one. `E` stands for
-- `WidgetUpdate`, whose fields the code does not read.
pub mod Output
use music_ra_t.Common.{
  ℕ, List, [], ◌∷◌, ◌++◌, Bool, true, false, ◌||◌, Option, none, some, length, leb, if◌then◌else◌,
  add_u32, has_flag, set_flag,
}
use music_ra_t.Protocol.{Block}

pub record WidgetUpdateMergeResult : Type 0 where
  pub merged_count : ℕ
  pub dropped_count : ℕ

-- What `append` changes.
pub record Merge (E : Type 0) : Type 0 where
  pub output : Block E
  pub result : WidgetUpdateMergeResult
  pub has_valid_source : Bool

module _ {E : Type 0} (max_events : ℕ) where
  -- WIDGET_UPDATE_BLOCK_SOURCE_INVALID is bit 0, WIDGET_UPDATE_BLOCK_OVERFLOW bit 1.
  pub append_update : E → Merge E → Merge E
  append_update event m =
      if leb max_events (length m.output.events)
      then record m {
        output = record (m.output) { flags = set_flag m.output.flags 1 };
        result = record (m.result) { dropped_count = add_u32 m.result.dropped_count 1 };
      }
      else record m {
        output = record (m.output) { events = m.output.events ++ event ∷ [] };
        result = record (m.result) { merged_count = add_u32 m.result.merged_count 1 };
      }

  pub append_updates : List E → Merge E → Merge E
  append_updates [] m = m
  append_updates (event ∷ events) m = append_updates events (append_update event m)

  pub append : Block E → Merge E → Merge E
  append input m =
      let flags = if has_flag input.flags 1 then set_flag m.output.flags 1 else m.output.flags in
      if has_flag input.flags 0
      then m
      else append_updates input.events
          (record m { output = record (m.output) { flags = flags }; has_valid_source = true })

  -- The null pointer is `none`.
  pub append_secondary : Option (Block E) → Merge E → Merge E
  append_secondary none m = m
  append_secondary (some input) m = append input m

  pub started : Block E → Merge E
  started primary = record {
    output = record {
      events = [];
      timestamp_ns = primary.timestamp_ns;
      sequence_number = primary.sequence_number;
      flags = 0;
    };
    result = record { merged_count = 0; dropped_count = 0 };
    has_valid_source = false;
  }

  pub merge : Block E → Option (Block E) → Block E × WidgetUpdateMergeResult
  merge primary secondary =
      let m = append_secondary secondary (append primary (started primary)) in
      (
        record (m.output) {
          flags = if m.has_valid_source then m.output.flags else set_flag m.output.flags 0;
        },
        m.result,
      )
