-- ===== src/Coordinator/Consistent.antt =====
-- Both attempts of `try_read_snapshot` together.
use music_ra_t.Common.{
  ◌≡◌, refl, ap, ◌∙◌, ◌⊎◌, inl, inr, List, [], ◌∷◌, ◌++◌, false, not, some, arith, if◌then◌else◌,
}
use music_ra_t.Coordinator.{
  Published, Store, apply, apply_all, PlaybackSnapshot, Gaps, Attempt, busy, torn, consistent,
  attempt, second_attempt, first_attempt, try_read_snapshot,
}
use music_ra_t.Coordinator.Snapshot.{
  snapshot_of, is_odd, is_bump, still_open, IsDisciplined, IsFollowed, stores_of, after,
  attempt_consistent, version-apply_all, after-apply_all, bumps-append, IsDisciplined-append,
}

odd-apply :
    (s : Store) (m : Published)
    → is_odd (apply s m).transition_version
      ≡ (if is_bump s then not (is_odd m.transition_version) else is_odd m.transition_version)
odd-apply s m = unfold apply in ground arith

odd-apply_all :
    (ss : List Store) (m : Published)
    → is_odd (apply_all ss m).transition_version ≡ still_open (is_odd m.transition_version) ss
unfolding apply_all
odd-apply_all [] m = refl
odd-apply_all (s ∷ ss) m = odd-apply_all ss (apply s m) ∙ ap (λ b. still_open b ss) (odd-apply s m)

IsFollowed-after :
    (m : Published) (g : Gaps) (ss : List Store)
    → IsFollowed m (stores_of g ++ ss)
    → IsFollowed m (stores_of g) × IsFollowed (after g m) ss
IsFollowed-after m g ss f = (
  record {
    small = f.small;
    disciplined = d.0;
    few = omega (arith, bumps-append (stores_of g) ss, f.few);
  },
  record {
    small = omega (arith, version-apply_all (stores_of g) m f.small);
    disciplined = rw (odd-apply_all (stores_of g) m) d.1;
    few = omega (arith, bumps-append (stores_of g) ss, f.few);
  },
)
  where
    d :
        IsDisciplined (is_odd m.transition_version) (stores_of g)
        × IsDisciplined (still_open (is_odd m.transition_version) (stores_of g)) ss
    d = IsDisciplined-append (is_odd m.transition_version) (stores_of g) ss f.disciplined

attempt_torn : (m : Published) (g : Gaps) → (attempt m g).0 ≡ torn → (attempt m g).1 ≡ after g m
unfolding attempt
attempt_torn m g e = ground (arith, after-apply_all m g)

first_attempt_inv :
    (out : Attempt × Published) (g : Gaps) (s : PlaybackSnapshot)
    → first_attempt out g ≡ some s
    → (out.0 ≡ consistent s) ⊎ ((out.0 ≡ torn) × ((attempt out.1 g).0 ≡ consistent s))
unfolding first_attempt
first_attempt_inv (busy, m) g s e = cc
first_attempt_inv (consistent t, m) g s e = inl (cc)
first_attempt_inv (torn, m) g s e = inr (refl, second (attempt m g) e)
  where
    second : (o : Attempt × Published) → second_attempt o ≡ some s → o.0 ≡ consistent s
    second (busy, n) q = cc
    second (torn, n) q = cc
    second (consistent t, n) q = cc

-- Whatever the decoding thread stores in between, within its transitions and with fewer than 2^64
-- steps of the version: a snapshot that is given out is the generation,
-- position and channel count as they stood together in memory at the start of one of the two
-- attempts, and at that moment no transition was under way.
pub try_read_snapshot_lem :
    (m : Published) (g1 g2 : Gaps) (s : PlaybackSnapshot)
    → IsFollowed m (stores_of g1 ++ stores_of g2)
    → try_read_snapshot m g1 g2 ≡ some s
    → ((is_odd m.transition_version ≡ false) × (s ≡ snapshot_of m))
      ⊎ ((is_odd (after g1 m).transition_version ≡ false) × (s ≡ snapshot_of (after g1 m)))
unfolding try_read_snapshot
try_read_snapshot_lem m g1 g2 s f e = elim (first_attempt_inv (attempt m g1) g2 s e) [
  | inl c ↦ inl (attempt_consistent m g1 s (IsFollowed-after m g1 (stores_of g2) f).0 c)
  | inr (t, c) ↦ inr (
      attempt_consistent (after g1 m) g2 s (IsFollowed-after m g1 (stores_of g2) f).1
        (rw (attempt_torn m g1 t) at c))
]
