-- ===== src/ControlMapper/Table/Sync.antt =====
-- `synchronize`: what each entry of the table becomes, and how many updates are counted.
use music_ra_t.Common.{
  ℕ, ◌+◌, ◌≡◌, List, [], ◌∷◌, Bool, true, false, ◌&&◌, ◌||◌, not, Option, none, some, ◌==◌,
  if◌then◌else◌,
}
use music_ra_t.Common.Floats.{Floats, clamp}
use music_ra_t.Protocol.{ParameterState, CompiledControlBinding}
use music_ra_t.ControlMapper.{Entry}
use music_ra_t.ControlMapper.Table.{synchronized}

module _ (fl : Floats) where
  open fl use {F, is_finite}

  -- Whether a state is for a binding: it names a parameter, with a finite value, and the binding
  -- has this parameter for its target, and is the one that the state names if it names one.
  unfoldable pub reaches : ParameterState F → CompiledControlBinding F → Bool
  reaches p b =
      not (p.parameter_id == 0)
      && (is_finite p.value
          && (p.parameter_id == b.target_parameter_id
              && (p.binding_id == 0 || p.binding_id == b.binding_id)))

  abbrev or_else : Option (ParameterState F) → Option (ParameterState F) → Option (ParameterState F)
  or_else none o = o
  or_else (some p) o = some p

  -- The last state for a binding, and the number of them.
  unfoldable pub last_for :
      List (ParameterState F) → CompiledControlBinding F → Option (ParameterState F)
  last_for [] b = none
  last_for (p ∷ ps) b = or_else (last_for ps b) (if reaches p b then some p else none)

  abbrev bit : Bool → ℕ
  bit true = 1
  bit false = 0

  unfoldable pub count_for : List (ParameterState F) → CompiledControlBinding F → ℕ
  count_for [] b = 0
  count_for (p ∷ ps) b = bit (reaches p b) + count_for ps b

  unfoldable pub count_all : List (ParameterState F) → List (Entry F) → ℕ
  count_all ps [] = 0
  count_all ps (x ∷ xs) = count_for ps x.binding + count_all ps xs

  -- The entry `x` has become `y` on the state `p`: it has the value within its bounds, as known
  -- and as emitted, and a pickup must be made again.
  pub record Adopts (x : Entry F) (p : ParameterState F) (y : Entry F) : Type 0 where
    pub same_binding : y.binding ≡ x.binding
    pub current :
        y.state.current_value ≡ clamp fl p.value x.binding.target_minimum x.binding.target_maximum
    pub emitted : y.state.last_emitted_value ≡ y.state.current_value
    pub has_emitted : y.state.has_emitted ≡ true
    pub latched : y.state.pickup_latched ≡ (x.binding.pickup == 0)
    pub no_candidate : y.state.has_pickup_candidate ≡ false
    pub same_input : y.state.input_active ≡ x.state.input_active
    pub same_candidate : y.state.last_pickup_candidate ≡ x.state.last_pickup_candidate

  abbrev pub Becomes : Entry F → Option (ParameterState F) → Entry F → Type 0
  Becomes x none y = y ≡ x
  Becomes x (some p) y = Adopts x p y

  abbrev pub AllBecome : List (ParameterState F) → List (Entry F) → List (Entry F) → Type 0
  AllBecome ps [] [] = Unit {0}
  AllBecome ps (x ∷ xs) (y ∷ ys) = Becomes x (last_for ps x.binding) y × AllBecome ps xs ys
  AllBecome ps _ _ = ⊥

  -- One state, as it acts on one entry.
  touched : ParameterState F → Entry F → Entry F
  touched p x = if reaches p x.binding then synchronized fl p x else x

  -- The entries that one state reaches.
  count_of : ParameterState F → List (Entry F) → ℕ
  count_of p [] = 0
  count_of p (x ∷ xs) = bit (reaches p x.binding) + count_of p xs
