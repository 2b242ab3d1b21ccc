-- ===== src/Pool/Scan.antt =====
-- What the two scans over the slots find.
use music_ra_t.Common.{
  ℕ, zero, suc, ◌+◌, ◌-◌, ◌%◌, ◌≤◌, ◌<◌, ◌≡◌, refl, ap, ◌∙◌, ◌⊎◌, inl, inr, Bool, true, false,
  Option, some, arith, length, get_elem?, set, set-set, set-get_elem?, Bool-cases, Option-cases,
  lt_of_get_elem?, length-le_of_get_elem?,
}
use native.Mathlib.Decide.{dec_lt}
use native.Mathlib.Nat.{mod-eq_of_lt}
use music_ra_t.Common.Floats.{Floats}
use music_ra_t.Pool.{
  Pool, Slot, SlotState, ready, reading, ReadReservation, WriteReservation, no_read, no_write,
  put_state, is_free, claim, begin_from, is_ready, read_view, acquire_from,
}

module _ {F : Type 0} where
  abbrev state_put : Slot F → SlotState → Slot F
  state_put s st = record s { state = st }

  put_back :
      (p : Pool F) (i : ℕ) (s : Slot F)
      → get_elem? p.slots i ≡ some s
      → is_ready s.state ≡ true
      → put_state (put_state p i s reading) i s ready ≡ p
  put_back p i s e r = ap (λ ss. record p { slots = ss }) same
    where
      same : set (set p.slots i (state_put s reading)) i (state_put s ready) ≡ p.slots
      same =
          set-set p.slots i (state_put s reading) (state_put s ready)
          ∙ ap (set p.slots i) (ground arith)
          ∙ set-get_elem? p.slots i e

  -- The first ready slot from `i` on that passes the test, taken for reading; or nothing, and then
  -- no ready slot passes.
  abbrev pub Acquired : (Slot F → Bool) → Pool F → ℕ → ReadReservation × Pool F → Type 0
  Acquired test p i out =
      ((out ≡ (no_read, p))
        × ((j : ℕ) (s : Slot F)
            → i ≤ j
            → get_elem? p.slots j ≡ some s
            → is_ready s.state ≡ true
            → test s ≡ false))
      ⊎ ((j : ℕ) × (s : Slot F) × (i ≤ j)
          × (get_elem? p.slots j ≡ some s)
          × (is_ready s.state ≡ true)
          × (test s ≡ true)
          × (out ≡ (read_view j s, put_state p j s reading)))

  Acquired-skip :
      (test : Slot F → Bool) (p : Pool F) (i : ℕ) (out : ReadReservation × Pool F)
      → ((s : Slot F) → get_elem? p.slots i ≡ some s → is_ready s.state ≡ true → test s ≡ false)
      → Acquired test p (suc i) out
      → Acquired test p i out
  Acquired-skip test p i out miss (inl (e, all)) = inl (e, later)
    where
      later :
          (j : ℕ) (s : Slot F)
          → i ≤ j
          → get_elem? p.slots j ≡ some s
          → is_ready s.state ≡ true
          → test s ≡ false
      later j s h g r = elim (dec_lt i j) [
        | yes q ↦ all j s q g r
        | no q ↦ miss s (ap (get_elem? p.slots) (omega arith) ∙ g) r
      ]
  Acquired-skip test p i out miss (inr (j, s, h, g, r, t, e)) = inr (j, s, omega arith, g, r, t, e)

  pub acquire_from-Acquired :
      (test : Slot F → Bool) (p : Pool F) (n i : ℕ)
      → length p.slots ≤ i + n
      → Acquired test p i (acquire_from test p n i)
  unfolding acquire_from
  acquire_from-Acquired test p zero i h =
      inl (refl, λ j s le g r. absurd (omega (arith, lt_of_get_elem? p.slots j g)))
  acquire_from-Acquired test p (suc n) i h = elim (Option-cases (get_elem? p.slots i)) [
    | inl e ↦
        rw (e, acquire_from)
          (inl (
            refl,
            λ j s le g r.
                absurd
                  (omega (arith, lt_of_get_elem? p.slots j g, length-le_of_get_elem? p.slots i e)),
          ))
    | inr (s, e) ↦ elim (Bool-cases (is_ready s.state)) [
      | inl r ↦ elim (Bool-cases (test s)) [
        | inl t ↦ rw (e, acquire_from) (rw r (rw t (inr (i, s, omega arith, e, r, t, refl))))
        | inr t ↦
            rw (e, acquire_from)
              (rw r (
                rw t (
                  rw (put_back p i s e r) (
                    Acquired-skip test p i _ (λ s' g _. ground arith)
                      (acquire_from-Acquired test p n (suc i) (omega arith))))))
      ]
      | inr r ↦
          rw (e, acquire_from)
            (rw r (
              Acquired-skip test p i _ (λ s' g r'. ground arith)
                (acquire_from-Acquired test p n (suc i) (omega arith))))
    ]
  ]

-- The cyclic scan for a slot to write.
module _ (fl : Floats) where
  open fl use {F}

  abbrev pub Begun : Pool F → ℕ → WriteReservation × Pool F → Type 0
  Begun p k out =
      ((out ≡ (no_write, p))
        × ((m : ℕ) (s : Slot F)
            → k ≤ m
            → m < length p.slots
            → get_elem? p.slots ((p.next_write_index + m) % length p.slots) ≡ some s
            → is_free s.state ≡ false))
      ⊎ ((i : ℕ) × (s : Slot F) × (get_elem? p.slots i ≡ some s)
          × (is_free s.state ≡ true)
          × (out ≡ claim fl p i s))

  Begun-skip :
      (p : Pool F) (k : ℕ) (out : WriteReservation × Pool F)
      → ((s : Slot F)
          → get_elem? p.slots ((p.next_write_index + k) % length p.slots) ≡ some s
          → is_free s.state ≡ false)
      → Begun p (suc k) out
      → Begun p k out
  Begun-skip p k out miss (inl (e, all)) = inl (e, later)
    where
      at : ℕ → Option (Slot F)
      at m = get_elem? p.slots ((p.next_write_index + m) % length p.slots)

      later :
          (m : ℕ) (s : Slot F)
          → k ≤ m
          → m < length p.slots
          → at m ≡ some s
          → is_free s.state ≡ false
      later m s le lt g = elim (dec_lt k m) [
        | yes q ↦ all m s q lt g
        | no q ↦ miss s (ap at (omega arith) ∙ g)
      ]
  Begun-skip p k out miss (inr r) = inr r

  pub begin_from-Begun :
      (p : Pool F) (n k : ℕ)
      → 0 < length p.slots
      → length p.slots ≤ k + n
      → Begun p k (begin_from fl p n k)
  unfolding begin_from
  begin_from-Begun p zero k pos h = inl (refl, λ m s le lt g. absurd (omega arith))
  begin_from-Begun p (suc n) k pos h = elim (Option-cases (get_elem? p.slots index)) [
    | inl e ↦ absurd (omega (arith, length-le_of_get_elem? p.slots index e))
    | inr (s, e) ↦ elim (Bool-cases (is_free s.state)) [
      | inl f ↦ rw (e, begin_from) (rw f (inr (index, s, e, f, refl)))
      | inr f ↦
          rw (e, begin_from)
            (rw f (
              Begun-skip p k _ (λ s' g. ground arith)
                (begin_from-Begun p n (suc k) pos (omega arith))))
    ]
  ]
    where
      index : ℕ
      index = (p.next_write_index + k) % length p.slots

-- Every index is some number of steps round the ring from the next one.
pub round_from : (n k j : ℕ) → k < n → j < n → (m : ℕ) × (m < n) × ((k + m) % n ≡ j)
round_from n k j hk hj = elim (dec_lt j k) [
  | yes q ↦ (j + n - k, omega arith, wrapped)
  | no q ↦ (j - k, omega arith, mod-eq_of_lt' (k + (j - k)) n j (omega arith) hj)
]
  where
    mod-eq_of_lt' : (a b c : ℕ) → a ≡ c → c < b → a % b ≡ c
    mod-eq_of_lt' a b c e h = rw e (mod-eq_of_lt h)

    wrapped : (k + (j + n - k)) % n ≡ j
    wrapped = grind arith

-- What holds of the slots in the order of the scan holds of every slot.
pub every_slot :
    {F : Type 0} (p : Pool F)
    → p.next_write_index < length p.slots
    → ((m : ℕ) (s : Slot F)
        → 0 ≤ m
        → m < length p.slots
        → get_elem? p.slots ((p.next_write_index + m) % length p.slots) ≡ some s
        → is_free s.state ≡ false)
    → (j : ℕ) (s : Slot F) → get_elem? p.slots j ≡ some s
    → is_free s.state ≡ false
every_slot p h all j s g =
    let (m, lt, e) =
      round_from (length p.slots) p.next_write_index j h (lt_of_get_elem? p.slots j g) in
    all m s (omega arith) lt (rw e g)
