-- ===== src/Common/Floats.antt =====
-- `double` and `float` are not computed here: a development over them takes the type and the
-- operations that the code calls as a parameter `fl : Floats`. What a theorem needs of the order
-- is a hypothesis `IsOrdered fl`; IEEE 754 comparisons meet it, NaN included.
use music_ra_t.Common.{
  ℕ, ◌+◌, ◌/◌, ◌%◌, ◌^◌, ◌≡◌, Bool, true, false, arith, ltb, ◌==◌, if◌then◌else◌,
}
use music_ra_t.Common.Int.{ℤ, pos, pos_part, neg_part, ◌+ℤ◌, ◌-ℤ◌, ◌*ℤ◌, ltb_ℤ, leb_ℤ}

pub record Floats : Type 1 where
  pub F : Type 0
  pub is_finite : F → Bool
  pub lt : F → F → Bool
  pub le : F → F → Bool
  pub eq : F → F → Bool
  pub add : F → F → F
  pub sub : F → F → F
  pub mul : F → F → F
  pub div : F → F → F
  pub abs : F → F
  pub sqrt : F → F
  pub round : F → F
  pub ceil : F → F
  pub copysign : F → F → F
  pub of_ℕ : ℕ → F  -- `static_cast<double>`
  pub to_ℕ : F → ℕ  -- `static_cast<uint64_t>`
  pub neg : F → F
  pub half : F  -- the literal 0.5
  pub boundary_epsilon : F  -- the literal 1.0e-9
  pub trunc : F → F
  pub floor : F → F
  pub fmod : F → F → F
  pub infinity : F  -- `std::numeric_limits<double>::infinity()`
  pub decimal : ℕ → ℕ → F  -- the literal n / 10^k
  pub narrow : F → F  -- `static_cast` to the type of a sample
  pub nan : F  -- `std::numeric_limits<double>::quiet_NaN()`

module _ (fl : Floats) where
  open fl use {F, lt}

  -- `std::clamp`, `std::min` and `std::max`, as the standard defines them.
  abbrev pub clamp : F → F → F → F
  clamp v lo hi = if lt v lo then lo else if lt hi v then hi else v

  abbrev pub min_f : F → F → F
  min_f a b = if lt b a then b else a

  abbrev pub max_f : F → F → F
  max_f a b = if lt a b then b else a

pub record IsOrdered (fl : Floats) : Type 0 where
  pub lt_irrefl : (x : fl.F) → fl.lt x x ≡ false
  pub not_lt_of_le : (x y : fl.F) → fl.le x y ≡ true → fl.lt y x ≡ false

-- A clamped value is neither below the lower bound nor above the upper one.
pub clamp_bounds :
    (fl : Floats)
    → IsOrdered fl
    → (v lo hi : fl.F) → fl.lt hi lo ≡ false
    → (fl.lt (clamp fl v lo hi) lo ≡ false) × (fl.lt hi (clamp fl v lo hi) ≡ false)
clamp_bounds fl o v lo hi h = ground (arith, o.lt_irrefl lo, o.lt_irrefl hi)

-- Integers in the place of doubles, for examples: every value is finite, and none is NaN.
abbrev pub integers : Floats
integers = record {
  F = ℤ;
  is_finite = λ x. true;
  lt = ltb_ℤ;
  le = leb_ℤ;
  eq = λ x y. pos_part x + neg_part y == pos_part y + neg_part x;
  add = ◌+ℤ◌;
  sub = ◌-ℤ◌;
  mul = ◌*ℤ◌;
  div = λ x y. pos (pos_part x / pos_part y);
  abs = λ x. pos (pos_part x + neg_part x);
  sqrt = λ x. x;
  round = λ x. x;
  ceil = λ x. x;
  copysign = λ x y. if ltb 0 (neg_part y) then pos 0 -ℤ x else x;
  of_ℕ = pos;
  to_ℕ = pos_part;
  neg = λ x. pos 0 -ℤ x;
  half = pos 0;
  boundary_epsilon = pos 0;
  trunc = λ x. x;
  floor = λ x. x;
  fmod = λ x y. pos (pos_part x % pos_part y);
  infinity = pos (2 ^ 64);
  decimal = λ n k. pos (n / 10 ^ k);
  narrow = λ x. x;
  nan = pos 0;
}

pub integers-IsOrdered : IsOrdered integers
integers-IsOrdered = record { lt_irrefl = λ x. ground arith; not_lt_of_le = λ x y h. ground arith }
