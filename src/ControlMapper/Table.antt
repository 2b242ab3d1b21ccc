-- ===== src/ControlMapper/Table.antt =====
-- The table of bindings: `configure` and `synchronize`.
pub mod Config
pub mod Sync
use music_ra_t.Common.{
  ℕ, ◌+◌, List, [], ◌∷◌, ◌++◌, map, Bool, true, false, ◌&&◌, ◌||◌, not, length, ltb, ◌==◌,
  if◌then◌else◌, add_u32,
}
use music_ra_t.Common.Floats.{Floats, clamp}
use music_ra_t.Protocol.{ParameterState, CompiledControlBinding}
use music_ra_t.ControlMapper.{ConfigError, BindingState, Entry, valid_binding}

module _ (fl : Floats) where
  open fl use {F, is_finite, of_ℕ}

  unfoldable pub has_id : ℕ → List (CompiledControlBinding F) → Bool
  has_id i [] = false
  has_id i (b ∷ bs) = b.binding_id == i || has_id i bs

  -- The loop that checks the bindings: `before` are the ones below `index`.
  unfoldable pub check_bindings :
      List (CompiledControlBinding F) → List (CompiledControlBinding F) → ConfigError
  check_bindings before [] = ConfigError.no_error
  check_bindings before (b ∷ bs) =
      let rest = check_bindings (before ++ b ∷ []) bs in
      if not (valid_binding fl b)
      then ConfigError.invalid_binding
      else if has_id b.binding_id before
      then ConfigError.duplicate_binding_id
      else rest

  unfoldable pub initial_entry : CompiledControlBinding F → Entry F
  initial_entry b =
      let initial = clamp fl b.initial_value b.target_minimum b.target_maximum in
      record {
        binding = b;
        state = record {
          current_value = initial;
          last_emitted_value = initial;
          has_emitted = false;
          input_active = false;
          pickup_latched = b.pickup == 0;
          has_pickup_candidate = false;
          last_pickup_candidate = of_ℕ 0;
        };
      }

  -- A table that is refused leaves the old one.
  unfoldable pub accepted :
      List (CompiledControlBinding F) → ConfigError → List (Entry F) → List (Entry F)
  accepted bs ConfigError.no_error xs = map initial_entry bs
  accepted bs _ xs = xs

  unfoldable pub configure :
      ℕ → List (CompiledControlBinding F) → List (Entry F) → ConfigError × List (Entry F)
  configure max_bindings bs xs =
      if ltb max_bindings (length bs)
      then (ConfigError.too_many_bindings, xs)
      else (check_bindings [] bs, accepted bs (check_bindings [] bs) xs)

  pub follows : CompiledControlBinding F → ParameterState F → Bool
  follows b p =
      b.target_parameter_id == p.parameter_id && (p.binding_id == 0 || b.binding_id == p.binding_id)

  pub synchronized : ParameterState F → Entry F → Entry F
  synchronized p x =
      let value = clamp fl p.value x.binding.target_minimum x.binding.target_maximum in
      record x {
        state = record (x.state) {
          current_value = value;
          last_emitted_value = value;
          has_emitted = true;
          pickup_latched = x.binding.pickup == 0;
          has_pickup_candidate = false;
        };
      }

  -- The inner loop of `synchronize`; the number is `updated`.
  pub synchronize_entries : ParameterState F → List (Entry F) → ℕ → List (Entry F) × ℕ
  synchronize_entries p [] updated = ([], updated)
  synchronize_entries p (x ∷ xs) updated =
      let hit = synchronize_entries p xs (add_u32 updated 1) in
      let miss = synchronize_entries p xs updated in
      if follows x.binding p then (synchronized p x ∷ hit.0, hit.1) else (x ∷ miss.0, miss.1)

  pub synchronize : List (ParameterState F) → List (Entry F) → ℕ → List (Entry F) × ℕ
  synchronize [] xs updated = (xs, updated)
  synchronize (p ∷ ps) xs updated =
      let here = synchronize_entries p xs updated in
      let on = synchronize ps here.0 here.1 in
      let skip = synchronize ps xs updated in
      if p.parameter_id == 0 || not (is_finite p.value) then skip else on
