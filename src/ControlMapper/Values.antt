-- ===== src/ControlMapper/Values.antt =====
-- What `map_value` emits is not below the target minimum of its binding and not above the target
-- maximum.
use music_ra_t.Common.{
  ◌≡◌, inl, inr, Bool, true, false, ◌&&◌, ◌||◌, Option, none, some, Bool-cases, ◌==◌, if◌then◌else◌,
}
use music_ra_t.Common.Floats.{Floats, min_f, IsOrdered, clamp_bounds}
use music_ra_t.Protocol.{CompiledControlBinding}
use music_ra_t.ControlMapper.{
  BindingState, finalize, emit_if_changed, pickup_allows, picked_up, map_value, absolute_candidate,
  apply_curve, apply_dead_zone,
}

module _ (fl : Floats) where
  open fl use {F, lt, le}

  -- Neither below the least target value nor above the greatest.
  abbrev pub InRange : CompiledControlBinding F → F → Type 0
  InRange b v = (lt v b.target_minimum ≡ false) × (lt b.target_maximum v ≡ false)

  abbrev pub OptionInRange : CompiledControlBinding F → Option F → Type 0
  OptionInRange b none = Unit {0}
  OptionInRange b (some v) = InRange b v

  abbrev pub StateInRange : CompiledControlBinding F → BindingState F → Type 0
  StateInRange b s = InRange b s.current_value × InRange b s.last_emitted_value

  unfoldable pub Bounded : CompiledControlBinding F → BindingState F × Option F → Type 0
  Bounded b r = StateInRange b r.0 × OptionInRange b r.1

  module _ (o : IsOrdered fl) (b : CompiledControlBinding F)
      (h : lt b.target_maximum b.target_minimum ≡ false) where
    finalize-InRange : (v : F) → InRange b (finalize fl b v)
    unfolding finalize
    finalize-InRange v = clamp_bounds fl o _ b.target_minimum b.target_maximum h

    emit_if_changed-Bounded :
        (s : BindingState F) (v : F) → StateInRange b s → Bounded b (emit_if_changed fl b s v)
    unfolding Bounded emit_if_changed
    emit_if_changed-Bounded s v hs =
        elim (Bool-cases (
          s.has_emitted
          && lt (fl.abs (fl.sub (finalize fl b v) s.last_emitted_value)) b.hysteresis)) [
            | inl t ↦ rw t ((finalize-InRange v, hs.1), tt)
            | inr t ↦ rw t ((finalize-InRange v, finalize-InRange v), finalize-InRange v)
          ]

    pickup_allows-StateInRange :
        (s : BindingState F) (v : F) → StateInRange b s → StateInRange b (pickup_allows fl b s v).0
    unfolding pickup_allows
    pickup_allows-StateInRange s v hs = elim (Bool-cases s.pickup_latched) [
      | inl t ↦ rw t hs
      | inr t ↦ rw t hs
    ]

    picked_up-Bounded :
        (v : F) (r : BindingState F × Bool) → StateInRange b r.0 → Bounded b (picked_up fl b v r)
    unfolding Bounded picked_up
    picked_up-Bounded v (s, true) hs = emit_if_changed-Bounded s v hs
    picked_up-Bounded v (s, false) hs = (hs, tt)

    quiet : (s : BindingState F) → StateInRange b s → Bounded b (s, none)
    unfolding Bounded
    quiet s hs = (hs, tt)

    either :
        (c : Bool) (x y : BindingState F × Option F)
        → Bounded b x
        → Bounded b y
        → Bounded b (if c then x else y)
    either true x y hx hy = hx
    either false x y hx hy = hy

    pub map_value-Bounded :
        (s : BindingState F) (input : F) → StateInRange b s → Bounded b (map_value fl b s input)
    unfolding map_value
    map_value-Bounded s input hs =
        let pressed = lt (fl.mul (fl.add b.source_minimum b.source_maximum) fl.half) input in
        let candidate = absolute_candidate fl b input in
        let magnitude = apply_dead_zone fl (min_f fl (fl.abs input) (fl.of_ℕ 1)) b.dead_zone in
        let curved = fl.copysign (apply_curve fl magnitude b.curve) input in
        let moved = fl.add (fl.add s.current_value (fl.mul curved b.scale)) b.offset in
        either (b.mode == 2) _ _ (either _ _ _ (emit_if_changed-Bounded _ _ hs) (quiet _ hs)) (
          either (b.mode == 5) _ _ (emit_if_changed-Bounded s b.target_maximum hs) (
            either (b.mode == 3 || b.mode == 4) _ _
              (emit_if_changed-Bounded s (if pressed then b.target_maximum else b.target_minimum)
                hs)
              (either (b.mode == 1) _ _ (emit_if_changed-Bounded s moved hs) (
                picked_up-Bounded candidate (pickup_allows fl b s candidate)
                  (pickup_allows-StateInRange s candidate hs)))))
