-- ===== src/Pool/Taken.antt =====
-- What a call of the rendering thread takes from the pool: one chunk at most.
use music_ra_t.Common.{
  ℕ, ◌+◌, ◌≤◌, ◌≡◌, refl, inl, inr, List, Bool, true, some, arith, get_elem?, set, All, All-set,
  length, Bool-cases, Option-cases, ◌==◌, ◌&&◌, ◌||◌, not, ltb,
}
use music_ra_t.Common.Floats.{Floats}
use music_ra_t.Pool.{
  Pool, Slot, ReadReservation, is_ready, is_reading, ready_count, free, reading, release,
  release_slot, contains, try_acquire, try_acquire_ready, points_to,
}
use music_ra_t.Pool.Scan.{Acquired, acquire_from-Acquired}
use music_ra_t.Pool.Slots.{ready_count-set}
use music_ra_t.Pool.Valid.{IsValid, release-IsValid, Acquired-IsValid}

-- Every chunk that can be acquired belongs to the generation.
abbrev pub CurrentSlots : {F : Type 0} → ℕ → List (Slot F) → Type 0
CurrentSlots g = All (λ s. is_ready s.state ≡ true → s.generation ≡ g)

module _ {F : Type 0} (max_frames : ℕ) where
  -- At most `n` chunks are taken, and none is added.
  pub record Takes (n : ℕ) (p q : Pool F) : Type 0 where
    pub fewer : ready_count q.slots ≤ ready_count p.slots
    pub not_more : ready_count p.slots ≤ ready_count q.slots + n
    pub current : (g : ℕ) → CurrentSlots g p.slots → CurrentSlots g q.slots
    pub valid : IsValid max_frames p → IsValid max_frames q

  pub Takes-refl : (n : ℕ) (p : Pool F) → Takes n p p
  Takes-refl n p = record {
    fewer = omega arith;
    not_more = omega arith;
    current = λ g c. c;
    valid = λ v. v;
  }

  pub Takes-trans : (m n : ℕ) (p q r : Pool F) → Takes m p q → Takes n q r → Takes (m + n) p r
  Takes-trans m n p q r a b = record {
    fewer = omega (arith, a.fewer, b.fewer);
    not_more = omega (arith, a.not_more, b.not_more);
    current = λ g c. b.current g (a.current g c);
    valid = λ v. b.valid (a.valid v);
  }

  Acquired-Takes :
      (test : Slot F → Bool) (p : Pool F) (out : ReadReservation × Pool F)
      → Acquired test p 0 out
      → Takes 1 p out.1
  Acquired-Takes test p out (inl (e, k)) = rw e (Takes-refl 1 p)
  Acquired-Takes test p out (inr (j, s, k, g, r, t, e)) = rw e (record {
    fewer = ground (arith, ready_count-set p.slots j (record s { state = reading }) g);
    not_more = ground (arith, ready_count-set p.slots j (record s { state = reading }) g);
    current = λ n c.
        All-set (λ x. is_ready x.state ≡ true → x.generation ≡ n) p.slots j
          (record s { state = reading }) c (λ q. cc);
    valid = λ v. Acquired-IsValid max_frames test p _ v (inr (j, s, k, g, r, t, refl));
  })

  pub try_acquire_ready-Takes :
      (p : Pool F) (generation : ℕ) → Takes 1 p (try_acquire_ready p generation).1
  unfolding try_acquire_ready
  try_acquire_ready-Takes p generation =
      Acquired-Takes _ p _ (acquire_from-Acquired _ p (length p.slots) 0 (omega arith))

  released :
      (p : Pool F) (i : ℕ) (s : Slot F) (q : Pool F)
      → get_elem? p.slots i ≡ some s
      → is_reading s.state ≡ true
      → q.slots ≡ set p.slots i (record s { state = free })
      → (IsValid max_frames p → IsValid max_frames q)
      → Takes 1 p q
  released p i s q g r e v = record {
    fewer = ground (arith, e, ready_count-set p.slots i (record s { state = free }) g);
    not_more = ground (arith, e, ready_count-set p.slots i (record s { state = free }) g);
    current = λ n c. rw e (
        All-set (λ x. is_ready x.state ≡ true → x.generation ≡ n) p.slots i
          (record s { state = free }) c (λ q. cc));
    valid = v;
  }

  pub release-Takes : (p : Pool F) (r : ReadReservation) → Takes 1 p (release p r)
  unfolding release
  release-Takes p r =
      elim (Bool-cases (ltb r.index (length p.slots) && points_to r.chunk.audio r.index)) [
        | inr t ↦ rw t (Takes-refl 1 p)
        | inl t ↦ elim (Option-cases (get_elem? p.slots r.index)) [
          | inl e ↦ rw (t, e) (Takes-refl 1 p)
          | inr (s, e) ↦ elim (Bool-cases (is_reading s.state)) [
            | inr w ↦ rw (t, e, release_slot) (rw w (Takes-refl 1 p))
            | inl w ↦
                released p r.index s (release p r) e w (slots t s e w)
                  (release-IsValid max_frames p r)
          ]
        ]
      ]
    where
      slots :
          (ltb r.index (length p.slots) && points_to r.chunk.audio r.index) ≡ true
          → (s : Slot F) → get_elem? p.slots r.index ≡ some s
          → is_reading s.state ≡ true
          → (release p r).slots ≡ set p.slots r.index (record s { state = free })
      slots t s e w = rw (t, e, w) refl

module _ (fl : Floats) (max_frames : ℕ) where
  open fl use {F}

  pub try_acquire-Takes :
      (p : Pool F) (x : F) (generation : ℕ) → Takes max_frames 1 p (try_acquire fl p x generation).1
  unfolding try_acquire
  try_acquire-Takes p x generation =
      elim (Bool-cases (not (fl.is_finite x) || fl.lt x (fl.of_ℕ 0))) [
        | inl e ↦ rw e (Takes-refl max_frames 1 p)
        | inr e ↦ rw e (
            Acquired-Takes max_frames _ p _ (
              acquire_from-Acquired (λ s. s.generation == generation && contains fl s x) p
                (length p.slots) 0 (omega arith)))
      ]
