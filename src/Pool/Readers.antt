-- ===== src/Pool/Readers.antt =====
-- Which slots are being read, after `try_acquire_ready` and `release`.
use music_ra_t.Common.{
  ℕ, ◌+◌, ◌≤◌, ◌≡◌, ◌≢◌, ◌⊎◌, refl, inl, inr, true, false, Option, none, some, arith, get_elem?,
  ◌==◌, if◌then◌else◌, Bool-cases, Option-cases, get_elem?-set_self, get_elem?-set_ne,
  lt_of_get_elem?, ==_iff, All, All-get_elem?,
}
use mathlib.Core.Path.{subst}
use music_ra_t.Common.Floats.{Floats}
use music_ra_t.Pool.{
  Pool, Slot, free, ReadReservation, read_view, no_read, points_to, is_reading, release,
  release_slot, try_acquire_ready,
}
use music_ra_t.Pool.Reservations.{try_acquire_ready_lem}

-- Whether a reservation is for slot `i`, as 1 or 0.
pub reserves : ℕ → ReadReservation → ℕ
reserves i r = if points_to r.chunk.audio i then 1 else 0

pub reserves-null : (i : ℕ) (r : ReadReservation) → r.chunk.audio ≡ none → reserves i r ≡ 0
unfolding reserves
reserves-null i r e = ground (arith, e)

pub reserves-no_read : (i : ℕ) → reserves i no_read ≡ 0
unfolding reserves
reserves-no_read i = refl

-- Of a reservation that is held, index and pointer agree.
abbrev pub IsHandle : ReadReservation → Type 0
IsHandle r = points_to r.chunk.audio r.index ≡ true

pub reserves_self : (r : ReadReservation) → IsHandle r → reserves r.index r ≡ 1
unfolding reserves
reserves_self r h = ground (arith, h)

module _ {F : Type 0} where
  slot_reads : Option (Slot F) → ℕ
  slot_reads none = 0
  slot_reads (some s) = if is_reading s.state then 1 else 0

  -- Whether slot `i` is being read, as 1 or 0.
  pub reads : Pool F → ℕ → ℕ
  reads p i = slot_reads (get_elem? p.slots i)

  pub reads-le : (p : Pool F) (i : ℕ) → reads p i ≤ 1
  unfolding reads slot_reads
  reads-le p i = elim (Option-cases (get_elem? p.slots i)) [
    | inl e ↦ ground (arith, e)
    | inr (s, e) ↦ ground (arith, e)
  ]

  pub reads-none :
      (p : Pool F) → All (λ s. is_reading s.state ≡ false) p.slots → (i : ℕ) → reads p i ≡ 0
  unfolding reads slot_reads
  reads-none p h i = elim (Option-cases (get_elem? p.slots i)) [
    | inl e ↦ ground (arith, e)
    | inr (s, e) ↦
        ground (arith, e, All-get_elem? (λ t. is_reading t.state ≡ false) p.slots i s h e)
  ]

  pub reads-release :
      (p : Pool F) (r : ReadReservation) (i : ℕ)
      → IsHandle r
      → reads p r.index ≡ 1
      → reads (release p r) i + reserves i r ≡ reads p i
  unfolding reads slot_reads reserves release release_slot
  reads-release p r i h one = elim (Option-cases (get_elem? p.slots r.index)) [
    | inl e ↦ absurd (ground (arith, one, e))
    | inr (s, e) ↦ elim (Bool-cases (r.index == i)) [
      | inl t ↦
          subst (λ j. reads (release p r) j + reserves j r ≡ reads p j) ((==_iff r.index i).0 t)
            (ground (
              arith,
              one,
              e,
              h,
              lt_of_get_elem? p.slots r.index e,
              get_elem?-set_self p.slots r.index (record s { state = free })
                  (lt_of_get_elem? p.slots r.index e),
            ))
      | inr t ↦
          ground
            (arith, t, h, e, one, get_elem?-set_ne p.slots (record s { state = free }) (apart t))
    ]
  ]
    where
      apart : (r.index == i) ≡ false → r.index ≢ i
      apart t q = ground (arith, t, q)

module _ (fl : Floats) where
  open fl use {F}

  pub reads-try_acquire_ready :
      (p : Pool F) (generation i : ℕ)
      → reads (try_acquire_ready p generation).1 i
        ≡ reads p i + reserves i (try_acquire_ready p generation).0
  unfolding reads slot_reads reserves read_view
  reads-try_acquire_ready p generation i = elim (try_acquire_ready_lem fl p generation) [
    | inl (e, _) ↦ ground (arith, e)
    | inr (j, s, g, ready_s, _, e, taken, others) ↦ elim (Bool-cases (j == i)) [
      | inl t ↦
          subst
            (λ k.
              reads (try_acquire_ready p generation).1 k
              ≡ reads p k + reserves k (try_acquire_ready p generation).0)
            ((==_iff j i).0 t) (ground (arith, e, g, taken, ready_s))
      | inr t ↦ ground (arith, t, e, others i (apart j t))
    ]
  ]
    where
      apart : (j : ℕ) → (j == i) ≡ false → j ≢ i
      apart j t q = ground (arith, t, q)

  -- A reservation that `try_acquire_ready` gives is empty, or for a slot of the generation.
  pub try_acquire_ready-IsHandle :
      (p : Pool F) (generation : ℕ)
      → (try_acquire_ready p generation ≡ (no_read, p))
        ⊎ (IsHandle (try_acquire_ready p generation).0
            × ((try_acquire_ready p generation).0.chunk.generation ≡ generation))
  unfolding read_view
  try_acquire_ready-IsHandle p generation = elim (try_acquire_ready_lem fl p generation) [
    | inl (e, _) ↦ inl e
    | inr (j, s, g, ready_s, same, e, taken, others) ↦
        inr (ground (arith, e), ground (arith, e, same))
  ]
