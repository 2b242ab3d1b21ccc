-- ===== src/Coordinator/Snapshot.antt =====
-- A snapshot that `try_read_snapshot` gives out was published as a whole.
use music_ra_t.Common.{
  ℕ, suc, ◌+◌, ◌%◌, ◌^◌, ◌<◌, ◌≡◌, refl, ap, ◌∙◌, ◌⊎◌, inl, inr, List, [], ◌∷◌, ◌++◌, Bool, true,
  false, not, arith, ◌==◌, if◌then◌else◌, Bool-cases,
}
use music_ra_t.Coordinator.{
  Published, Store, bump_version, put_generation, put_media_frame, put_channel_count, apply,
  apply_all, PlaybackSnapshot, Gaps, consistent, attempt,
}

abbrev pub snapshot_of : Published → PlaybackSnapshot
snapshot_of m = record {
  generation = m.generation;
  media_frame = m.media_frame;
  channel_count = m.channel_count;
}

abbrev pub is_odd : ℕ → Bool
is_odd n = n % 2 == 1

abbrev pub is_bump : Store → Bool
is_bump bump_version = true
is_bump _ = false

-- The stores that a snapshot can see.
abbrev pub is_visible : Store → Bool
is_visible (put_generation n) = true
is_visible (put_media_frame n) = true
is_visible (put_channel_count n) = true
is_visible _ = false

abbrev pub bumps : List Store → ℕ
bumps [] = 0
bumps (s ∷ ss) = if is_bump s then suc (bumps ss) else bumps ss

-- Whether a transition is under way after the stores, if it was (`open`) before them.
abbrev pub still_open : Bool → List Store → Bool
still_open open_ [] = open_
still_open open_ (s ∷ ss) = still_open (if is_bump s then not open_ else open_) ss

-- A visible store is made only while a transition is under way.
abbrev pub IsDisciplined : Bool → List Store → Type 0
IsDisciplined open_ [] = Unit {0}
IsDisciplined open_ (s ∷ ss) =
    (is_visible s ≡ true → open_ ≡ true) × IsDisciplined (if is_bump s then not open_ else open_) ss

apply_all-append :
    (xs ys : List Store) (m : Published) → apply_all (xs ++ ys) m ≡ apply_all ys (apply_all xs m)
unfolding apply_all
apply_all-append [] ys m = refl
apply_all-append (x ∷ xs) ys m = apply_all-append xs ys (apply x m)

pub bumps-append : (xs ys : List Store) → bumps (xs ++ ys) ≡ bumps xs + bumps ys
bumps-append [] ys = omega arith
bumps-append (x ∷ xs) ys = ground (arith, bumps-append xs ys)

pub IsDisciplined-append :
    (b : Bool) (xs ys : List Store)
    → IsDisciplined b (xs ++ ys)
    → IsDisciplined b xs × IsDisciplined (still_open b xs) ys
IsDisciplined-append b [] ys h = (tt, h)
IsDisciplined-append b (x ∷ xs) ys h =
    let r = IsDisciplined-append (if is_bump x then not b else b) xs ys h.1 in ((h.0, r.0), r.1)

pub version-apply :
    (s : Store) (m : Published)
    → m.transition_version < 2 ^ 64
    → ((apply s m).transition_version < 2 ^ 64)
      × ((apply s m).transition_version ≡ (m.transition_version + bumps (s ∷ [])) % 2 ^ 64)
version-apply s m h = unfold apply in ground arith

pub version-apply_all :
    (ss : List Store) (m : Published)
    → m.transition_version < 2 ^ 64
    → (apply_all ss m).transition_version ≡ (m.transition_version + bumps ss) % 2 ^ 64
unfolding apply_all
version-apply_all [] m h = omega arith
version-apply_all (s ∷ ss) m h = omega (
  arith,
  version-apply s m h,
  bumps-append (s ∷ []) ss,
  version-apply_all ss (apply s m) (version-apply s m h).0,
)

invisible-apply :
    (s : Store) (m : Published) → is_visible s ≡ false → snapshot_of (apply s m) ≡ snapshot_of m
invisible-apply s m h = unfold apply in ground arith

-- Outside a transition, stores without a bump leave the snapshot alone.
quiet-apply_all :
    (ss : List Store) (m : Published)
    → IsDisciplined false ss
    → bumps ss ≡ 0
    → (snapshot_of (apply_all ss m) ≡ snapshot_of m) × (still_open false ss ≡ false)
unfolding apply_all
quiet-apply_all [] m h q = (refl, refl)
quiet-apply_all (s ∷ ss) m h q = elim (Bool-cases (is_bump s)) [
  | inl t ↦ absurd (bump_absurd t)
  | inr t ↦ rw t (
      let rest = quiet-apply_all ss (apply s m) (kept t) (ground arith) in
      (rest.0 ∙ invisible-apply s m (unseen (Bool-cases (is_visible s))), rest.1))
]
  where
    bump_absurd : is_bump s ≡ true → ⊥
    bump_absurd t = ground arith

    kept : is_bump s ≡ false → IsDisciplined false ss
    kept t = rw t at (h.1)

    unseen : (is_visible s ≡ true) ⊎ (is_visible s ≡ false) → is_visible s ≡ false
    unseen (inl v) = cc (h.0 v)
    unseen (inr v) = v

abbrev pub stores_of : Gaps → List Store
stores_of g =
    g.after_version ++ (g.after_generation ++ (g.after_media_frame ++ g.after_channel_count))

-- The memory after an attempt that was not stopped at once.
abbrev pub after : Gaps → Published → Published
after g m = apply_all (stores_of g) m

-- The other thread's stores are disciplined, and too few to bring the version round to itself.
pub record IsFollowed (m : Published) (ss : List Store) : Type 0 where
  pub small : m.transition_version < 2 ^ 64
  pub disciplined : IsDisciplined (is_odd m.transition_version) ss
  pub few : bumps ss < 2 ^ 64

quiet-split :
    (xs ys : List Store) (m : Published)
    → IsDisciplined false (xs ++ ys)
    → bumps (xs ++ ys) ≡ 0
    → (snapshot_of (apply_all xs m) ≡ snapshot_of m) × IsDisciplined false ys × (bumps ys ≡ 0)
quiet-split xs ys m h q = (r.0, rw r.1 at (d.1), omega (arith, bumps-append xs ys))
  where
    d : IsDisciplined false xs × IsDisciplined (still_open false xs) ys
    d = IsDisciplined-append false xs ys h

    r : (snapshot_of (apply_all xs m) ≡ snapshot_of m) × (still_open false xs ≡ false)
    r = quiet-apply_all xs m d.0 (omega (arith, bumps-append xs ys))

attempt_inv :
    (m : Published) (g : Gaps) (s : PlaybackSnapshot)
    → (attempt m g).0 ≡ consistent s
    → let m1 = apply_all g.after_version m in
      let m2 = apply_all g.after_generation m1 in
      let m3 = apply_all g.after_media_frame m2 in
      (is_odd m.transition_version ≡ false)
      × (m.transition_version ≡ (apply_all g.after_channel_count m3).transition_version)
      × (s.generation ≡ m1.generation)
      × (s.media_frame ≡ m2.media_frame)
      × (s.channel_count ≡ m3.channel_count)
unfolding attempt
attempt_inv m g s e = ground arith

pub after-apply_all :
    (m : Published) (g : Gaps)
    → after g m
      ≡ apply_all g.after_channel_count (
          apply_all g.after_media_frame
            (apply_all g.after_generation (apply_all g.after_version m)))
after-apply_all m g =
    apply_all-append g.after_version _ m
    ∙ apply_all-append g.after_generation _ (apply_all g.after_version m)
    ∙ apply_all-append g.after_media_frame g.after_channel_count
        (apply_all g.after_generation (apply_all g.after_version m))

-- A consistent snapshot is the published state both before and after the attempt, and no
-- transition was under way.
pub attempt_consistent :
    (m : Published) (g : Gaps) (s : PlaybackSnapshot)
    → IsFollowed m (stores_of g)
    → (attempt m g).0 ≡ consistent s
    → (is_odd m.transition_version ≡ false) × (s ≡ snapshot_of m)
attempt_consistent m g s f e = (inv.0, ground (arith, inv, q1.0, q2.0, q3.0))
  where
    m1 : Published
    m1 = apply_all g.after_version m

    m2 : Published
    m2 = apply_all g.after_generation m1

    inv :
        (is_odd m.transition_version ≡ false)
        × (m.transition_version
            ≡ (apply_all g.after_channel_count
                (apply_all g.after_media_frame m2)).transition_version)
        × (s.generation ≡ m1.generation)
        × (s.media_frame ≡ m2.media_frame)
        × (s.channel_count ≡ (apply_all g.after_media_frame m2).channel_count)
    inv = attempt_inv m g s e

    still : bumps (stores_of g) ≡ 0
    still = omega (
      arith,
      version-apply_all (stores_of g) m f.small,
      ap (λ o. o.transition_version) (after-apply_all m g),
      inv.1,
      f.few,
      f.small,
    )

    q1 :
        (snapshot_of m1 ≡ snapshot_of m)
        × IsDisciplined false (g.after_generation ++ (g.after_media_frame ++ g.after_channel_count))
        × (bumps (g.after_generation ++ (g.after_media_frame ++ g.after_channel_count)) ≡ 0)
    q1 = quiet-split g.after_version _ m (rw inv.0 at (f.disciplined)) still

    q2 :
        (snapshot_of m2 ≡ snapshot_of m1)
        × IsDisciplined false (g.after_media_frame ++ g.after_channel_count)
        × (bumps (g.after_media_frame ++ g.after_channel_count) ≡ 0)
    q2 = quiet-split g.after_generation _ m1 q1.1 q1.2

    q3 :
        (snapshot_of (apply_all g.after_media_frame m2) ≡ snapshot_of m2)
        × IsDisciplined false g.after_channel_count
        × (bumps g.after_channel_count ≡ 0)
    q3 = quiet-split g.after_media_frame g.after_channel_count m2 q2.1 q2.2
