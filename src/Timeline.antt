-- ===== src/Timeline.antt =====
-- The events of a block stand in the order of their sample offsets. `insert_event` appends an
-- event and swaps it towards the front; dsp/control_mapper.hpp and dsp/deck_control_quantizer.hpp
-- (under include/musicrat) hold the same loop, each over its own event type.
pub mod Order
use music_ra_t.Common.{
  ℕ, zero, suc, ◌-◌, List, [], ◌∷◌, ◌++◌, Bool, true, false, none, some, length, get_elem?, set,
  ltb,
}

module _ {A : Type 0} (sample_offset : A → ℕ) where
  -- `while (index > 0 && events[index].sample_offset < events[index - 1].sample_offset)`
  pub swap_down : ℕ → List A → List A
  swap_down zero xs = xs
  swap_down (suc i) xs = elim (get_elem? xs (suc i)) [
    | none ↦ xs
    | some b ↦ elim (get_elem? xs i) [
      | none ↦ xs
      | some a ↦ elim (ltb (sample_offset b) (sample_offset a)) [
        | true ↦ swap_down i (set (set xs (suc i) a) i b)
        | false ↦ xs
      ]
    ]
  ]

  pub insert_event : A → List A → List A
  insert_event e xs = let ys = xs ++ e ∷ [] in swap_down (length ys - 1) ys
