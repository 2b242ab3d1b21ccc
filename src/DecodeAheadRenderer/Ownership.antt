-- ===== src/DecodeAheadRenderer/Ownership.antt =====
-- The slots that are being read are those of the reservations, each of one reservation.
use music_ra_t.Common.{
  ℕ, ◌+◌, ◌≡◌, ◌⊎◌, refl, inl, inr, List, [], ◌∷◌, true, false, arith, Bool-cases, All, total,
  total-nil, total-cons,
}
use music_ra_t.Common.Floats.{Floats}
use music_ra_t.Pool.{Pool, ReadReservation, no_read, try_acquire_ready, release}
use music_ra_t.Pool.Readers.{
  reserves, reserves-null, reserves-no_read, reserves_self, reads, reads-le, IsHandle,
  reads-release, reads-try_acquire_ready, try_acquire_ready-IsHandle,
}
use music_ra_t.DecodeAheadRenderer.{
  is_held, acquire_ready_chunks, release_all, release_behind, is_consumed,
}

-- A reservation that is empty, or for a slot of the generation.
abbrev pub IsReservation : ℕ → ReadReservation → Type 0
IsReservation generation r = (is_held r ≡ false) ⊎ (IsHandle r × (r.chunk.generation ≡ generation))

pub reserves-unheld : (i : ℕ) (r : ReadReservation) → is_held r ≡ false → reserves i r ≡ 0
reserves-unheld i r h = reserves-null i r (ground (arith, h))

-- The readings `taken`, and that of a reservation.
taken_with : (ℕ → ℕ) → ReadReservation → ℕ → ℕ
taken_with taken r i = taken i + reserves i r

handle : (g : ℕ) (r : ReadReservation) → is_held r ≡ true → IsReservation g r → IsHandle r
handle g r t (inl u) = absurd (ground (arith, t, u))
handle g r t (inr (k, _)) = k

module _ {F : Type 0} where
  -- The readings of the slots are `taken` and those of the reservations.
  abbrev pub Balanced : (ℕ → ℕ) → Pool F → List ReadReservation → Type 0
  Balanced taken p rs = (i : ℕ) → reads p i ≡ taken i + total (reserves i) rs

  Balanced-tail :
      (taken : ℕ → ℕ) (p : Pool F) (r : ReadReservation) (rs : List ReadReservation)
      → Balanced taken p (r ∷ rs)
      → Balanced (taken_with taken r) p rs
  unfolding taken_with
  Balanced-tail taken p r rs h i = omega (arith, h i, total-cons (reserves i) r rs)

  Balanced-cons :
      (taken : ℕ → ℕ) (p : Pool F) (r : ReadReservation) (rs : List ReadReservation)
      → Balanced (taken_with taken r) p rs
      → Balanced taken p (r ∷ rs)
  unfolding taken_with
  Balanced-cons taken p r rs h i = omega (arith, h i, total-cons (reserves i) r rs)

  -- Without a reservation that is empty, or that was released, the others balance.
  Balanced-unheld :
      (taken : ℕ → ℕ) (p : Pool F) (r : ReadReservation) (rs : List ReadReservation)
      → is_held r ≡ false
      → Balanced taken p (r ∷ rs)
      → Balanced taken p rs
  Balanced-unheld taken p r rs u h i =
      omega (arith, h i, total-cons (reserves i) r rs, reserves-unheld i r u)

  Balanced-release :
      (taken : ℕ → ℕ) (p : Pool F) (r : ReadReservation) (rs : List ReadReservation)
      → IsHandle r
      → Balanced taken p (r ∷ rs)
      → Balanced taken (release p r) rs
  Balanced-release taken p r rs k h i =
      omega (arith, h i, total-cons (reserves i) r rs, reads-release p r i k once)
    where
      once : reads p r.index ≡ 1
      once = omega (
        arith,
        h r.index,
        total-cons (reserves r.index) r rs,
        reserves_self r k,
        reads-le p r.index,
      )

  Balanced-empty :
      (taken : ℕ → ℕ) (p : Pool F) (rs : List ReadReservation)
      → Balanced taken p rs
      → Balanced taken p (no_read ∷ rs)
  Balanced-empty taken p rs h i =
      omega (arith, h i, total-cons (reserves i) no_read rs, reserves-no_read i)

  -- After a loop over reservations: they balance, and each is empty or for a slot of the generation.
  abbrev pub Keeps : ℕ → (ℕ → ℕ) → List ReadReservation × Pool F → Type 0
  Keeps generation taken (rs, p) = All (IsReservation generation) rs × Balanced taken p rs

  Keeps-cons :
      (g : ℕ) (taken : ℕ → ℕ) (r : ReadReservation) (out : List ReadReservation × Pool F)
      → IsReservation g r
      → Keeps g (taken_with taken r) out
      → Keeps g taken (r ∷ out.0, out.1)
  Keeps-cons g taken r (rs, p) k (a, h) = ((k, a), Balanced-cons taken p r rs h)

  Keeps-empty :
      (g : ℕ) (taken : ℕ → ℕ) (out : List ReadReservation × Pool F)
      → Keeps g taken out
      → Keeps g taken (no_read ∷ out.0, out.1)
  Keeps-empty g taken (rs, p) (a, h) = ((inl refl, a), Balanced-empty taken p rs h)

module _ (fl : Floats) where
  open fl use {F}

  pub release_behind-Keeps :
      (x : F) (g : ℕ) (rs : List ReadReservation) (taken : ℕ → ℕ) (p : Pool F)
      → All (IsReservation g) rs
      → Balanced taken p rs
      → Keeps g taken (release_behind fl x rs p)
  unfolding release_behind
  release_behind-Keeps x g [] taken p a h = (a, h)
  release_behind-Keeps x g (r ∷ rs) taken p a h =
      let kept : Keeps g taken (r ∷ (release_behind fl x rs p).0, (release_behind fl x rs p).1) =
        Keeps-cons g taken r (release_behind fl x rs p) a.0
          (release_behind-Keeps x g rs (taken_with taken r) p a.1 (Balanced-tail taken p r rs h)) in
      elim (Bool-cases (is_held r)) [
        | inr t ↦ rw t kept
        | inl t ↦ elim (Bool-cases (is_consumed fl x p r)) [
          | inl u ↦
              rw (t, u)
                (Keeps-empty g taken (release_behind fl x rs (release p r)) (
                  release_behind-Keeps x g rs taken (release p r) a.1
                    (Balanced-release taken p r rs (handle g r t a.0) h)))
          | inr u ↦ rw (t, u) kept
        ]
      ]

  -- Nothing that was held is held any more.
  pub release_all-Keeps :
      (g : ℕ) (rs : List ReadReservation) (taken : ℕ → ℕ) (p : Pool F)
      → All (IsReservation g) rs
      → Balanced taken p rs
      → (All (λ r. is_held r ≡ false) (release_all rs p).0)
        × ((i : ℕ) → reads (release_all rs p).1 i ≡ taken i)
  unfolding release_all
  release_all-Keeps g [] taken p a h = (tt, λ i. omega (arith, h i, total-nil (reserves i)))
  release_all-Keeps g (r ∷ rs) taken p a h = elim (Bool-cases (is_held r)) [
    | inl t ↦
        let on =
          release_all-Keeps g rs taken (release p r) a.1
            (Balanced-release taken p r rs (handle g r t a.0) h) in
        rw t ((refl, on.0), on.1)
    | inr t ↦
        let on = release_all-Keeps g rs taken p a.1 (Balanced-unheld taken p r rs t h) in
        rw t ((t, on.0), on.1)
  ]

  acquired-IsReservation : (g : ℕ) (p : Pool F) → IsReservation g (try_acquire_ready p g).0
  acquired-IsReservation g p = elim (try_acquire_ready-IsHandle fl p g) [
    | inl e ↦ inl (ground (arith, e))
    | inr k ↦ inr k
  ]

  Balanced-acquire :
      (g : ℕ) (p : Pool F) (r : ReadReservation) (rs : List ReadReservation) (taken : ℕ → ℕ)
      → is_held r ≡ false
      → Balanced taken p (r ∷ rs)
      → Balanced taken (try_acquire_ready p g).1 ((try_acquire_ready p g).0 ∷ rs)
  Balanced-acquire g p r rs taken u h i = omega (
    arith,
    Balanced-unheld taken p r rs u h i,
    total-cons (reserves i) (try_acquire_ready p g).0 rs,
    reads-try_acquire_ready fl p g i,
  )

  pub acquire_ready_chunks-Keeps :
      (g : ℕ) (rs : List ReadReservation) (taken : ℕ → ℕ) (p : Pool F)
      → All (IsReservation g) rs
      → Balanced taken p rs
      → Keeps g taken (acquire_ready_chunks g rs p)
  unfolding acquire_ready_chunks
  acquire_ready_chunks-Keeps g [] taken p a h = (a, h)
  acquire_ready_chunks-Keeps g (r ∷ rs) taken p a h = elim (Bool-cases (is_held r)) [
    | inl t ↦ rw t (
        Keeps-cons g taken r (acquire_ready_chunks g rs p) a.0 (
          acquire_ready_chunks-Keeps g rs (taken_with taken r) p a.1
            (Balanced-tail taken p r rs h)))
    | inr t ↦
        let B = Balanced-acquire g p r rs taken t h in
        let G = acquired-IsReservation g p in
        elim (Bool-cases (is_held (try_acquire_ready p g).0)) [
          | inl u ↦
              rw (t, u)
                (Keeps-cons g taken (try_acquire_ready p g).0
                  (acquire_ready_chunks g rs (try_acquire_ready p g).1) G
                  (acquire_ready_chunks-Keeps g rs (taken_with taken (try_acquire_ready p g).0)
                    (try_acquire_ready p g).1 a.1
                    (Balanced-tail taken (try_acquire_ready p g).1 (try_acquire_ready p g).0 rs B)))
          | inr u ↦ rw (t, u) ((G, a.1), B)
        ]
  ]
