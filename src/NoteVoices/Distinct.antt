-- ===== src/NoteVoices/Distinct.antt =====
-- At most one voice plays a note.
use music_ra_t.Common.{
  ℕ, zero, suc, ◌+◌, ◌≡◌, ◌≢◌, ◌⊎◌, refl, sym, ◌∙◌, inl, inr, List, [], ◌∷◌, map, Bool, true, false,
  ◌&&◌, ◌||◌, none, some, arith, get_elem?, set, get_elem?-set_self, get_elem?-set_ne,
  lt_of_get_elem?, Bool-cases, Option-cases, ◌==◌, if◌then◌else◌, ==_iff, All, All-get_elem?,
}
use mathlib.Core.Path.{subst}
use music_ra_t.Common.Floats.{Floats}
use music_ra_t.Adsr.{AdsrParameters}
use music_ra_t.NoteEvents.{NoteEvent}
use music_ra_t.NoteVoices.{
  NoteVoice, NoteVoiceBank, matches, first_from, select_voice, start_voice, release_voice,
  release_where, is_of_channel, start_at, apply,
}

true_ne : true ≡ false → ⊥
true_ne h = cc

==-cases : (i j : ℕ) → (i ≡ j) ⊎ (i ≢ j)
==-cases i j = elim (Bool-cases (i == j)) [
  | inl t ↦ inl ((==_iff i j).0 t)
  | inr t ↦ inr (λ q. true_ne (sym ((==_iff i j).1 q) ∙ t))
]

module _ {F : Type 0} where
  -- No two voices match one event.
  abbrev pub IsDistinct : List (NoteVoice F) → Type 0
  IsDistinct vs =
      (e : NoteEvent F) (i j : ℕ) (v w : NoteVoice F)
      → get_elem? vs i ≡ some v
      → get_elem? vs j ≡ some w
      → matches v e ≡ true
      → matches w e ≡ true
      → i ≡ j

  -- Voices that are not active match nothing.
  pub silent-IsDistinct : (vs : List (NoteVoice F)) → All (λ v. v.active ≡ false) vs → IsDistinct vs
  unfolding matches
  silent-IsDistinct vs h e i j v w gi gj mv mw =
      absurd (ground (arith, mv, All-get_elem? (λ u. u.active ≡ false) vs i v h gi))

  first_from-none :
      (test : NoteVoice F → Bool) (k : ℕ) (vs : List (NoteVoice F))
      → first_from test k vs ≡ none
      → (j : ℕ) (v : NoteVoice F) → get_elem? vs j ≡ some v
      → test v ≡ false
  unfolding first_from
  first_from-none test k [] h j v e = absurd (ground (arith, e))
  first_from-none test k (x ∷ xs) h zero v e = ground (arith, h, e)
  first_from-none test k (x ∷ xs) h (suc j) v e =
      first_from-none test (suc k) xs (ground (arith, h)) j v e

  first_from-some :
      (test : NoteVoice F → Bool) (k i : ℕ) (vs : List (NoteVoice F))
      → first_from test k vs ≡ some i
      → (j : ℕ) × (v : NoteVoice F) × (i ≡ k + j) × (get_elem? vs j ≡ some v) × (test v ≡ true)
  unfolding first_from
  first_from-some test k i [] h = absurd (ground (arith, h))
  first_from-some test k i (x ∷ xs) h = elim (Bool-cases (test x)) [
    | inl t ↦ (0, x, ground (arith, h, t), refl, t)
    | inr t ↦
        let on = first_from-some test (suc k) i xs (ground (arith, h, t)) in
        (suc on.0, on.1, omega (arith, on.2), on.3, on.4)
  ]

  -- But for voice `i`, none matches the event.
  abbrev OthersFree : List (NoteVoice F) → NoteEvent F → ℕ → Type 0
  OthersFree vs e i =
      (j : ℕ) (w : NoteVoice F) → get_elem? vs j ≡ some w → i ≢ j → matches w e ≡ false

  select_voice-OthersFree :
      (b : NoteVoiceBank F) (e : NoteEvent F)
      → IsDistinct b.voices
      → OthersFree b.voices e (select_voice b e).0
  unfolding select_voice
  select_voice-OthersFree b e d j w g n =
      elim (Option-cases (first_from (λ v. matches v e) 0 b.voices)) [
        | inl h ↦ first_from-none (λ v. matches v e) 0 b.voices h j w g
        | inr (i, h) ↦ elim (Bool-cases (matches w e)) [
          | inr t ↦ t
          | inl t ↦
              let s = first_from-some (λ v. matches v e) 0 i b.voices h in
              absurd (n (ground (arith, h, s.2, d e s.0 j s.1 w s.3 g s.4 t)))
        ]
      ]

  get_elem?-map_inv :
      (f : NoteVoice F → NoteVoice F) (vs : List (NoteVoice F)) (i : ℕ) (w : NoteVoice F)
      → get_elem? (map f vs) i ≡ some w
      → (v : NoteVoice F) × (get_elem? vs i ≡ some v) × (w ≡ f v)
  get_elem?-map_inv f [] i w e = absurd (ground (arith, e))
  get_elem?-map_inv f (x ∷ xs) zero w e = (x, refl, cc)
  get_elem?-map_inv f (x ∷ xs) (suc i) w e = get_elem?-map_inv f xs i w e

  -- A map that leaves what voices match.
  map-IsDistinct :
      (f : NoteVoice F → NoteVoice F) (vs : List (NoteVoice F))
      → ((v : NoteVoice F) (e : NoteEvent F) → matches (f v) e ≡ matches v e)
      → IsDistinct vs
      → IsDistinct (map f vs)
  map-IsDistinct f vs same d e i j v w gi gj mv mw =
      let (v', gv, ev) = get_elem?-map_inv f vs i v gi in
      let (w', gw, ew) = get_elem?-map_inv f vs j w gj in
      d e i j v' w' gv gw (ground (arith, mv, ev, same v' e)) (ground (arith, mw, ew, same w' e))

  -- A voice that plays the event at `i` in place of another.
  set-IsDistinct :
      (vs : List (NoteVoice F)) (i : ℕ) (u v : NoteVoice F) (e : NoteEvent F)
      → IsDistinct vs
      → OthersFree vs e i
      → get_elem? vs i ≡ some u
      → ((w : NoteVoice F) (e' : NoteEvent F)
          → matches v e' ≡ true
          → matches w e' ≡ true
          → matches w e ≡ true)
      → IsDistinct (set vs i v)
  set-IsDistinct vs i u v e d free gu plays e' j k x y gj gk mx my = elim (==-cases i j) [
    | inl p ↦ elim (==-cases i k) [
      | inl q ↦ sym p ∙ q
      | inr q ↦ absurd (unfree k y q gk (plays y e' (at_i j x p gj mx) my))
    ]
    | inr p ↦ elim (==-cases i k) [
      | inl q ↦ absurd (unfree j x p gj (plays x e' (at_i k y q gk my) mx))
      | inr q ↦ d e' j k x y (elsewhere j x p gj) (elsewhere k y q gk) mx my
    ]
  ]
    where
      elsewhere :
          (k : ℕ) (y : NoteVoice F)
          → i ≢ k
          → get_elem? (set vs i v) k ≡ some y
          → get_elem? vs k ≡ some y
      elsewhere k y q gk = sym (get_elem?-set_ne vs v q) ∙ gk

      unfree :
          (k : ℕ) (y : NoteVoice F)
          → i ≢ k
          → get_elem? (set vs i v) k ≡ some y
          → matches y e ≡ true
          → ⊥
      unfree k y q gk m = true_ne (sym m ∙ free k y (sym (get_elem?-set_ne vs v q) ∙ gk) q)

      at_i :
          (k : ℕ) (y : NoteVoice F)
          → i ≡ k
          → get_elem? (set vs i v) k ≡ some y
          → matches y e' ≡ true
          → matches v e' ≡ true
      at_i k y q gk m =
          ground (arith, m, q, gk, get_elem?-set_self vs i v (lt_of_get_elem? vs i gu))

module _ (fl : Floats) where
  open fl use {F, lt, of_ℕ}

  matches-start_voice :
      (e : NoteEvent F) (p q : AdsrParameters F) (x : F) (u w : NoteVoice F) (e' : NoteEvent F)
      → matches (start_voice fl e p q x u) e' ≡ true
      → matches w e' ≡ true
      → matches w e ≡ true
  unfolding matches start_voice
  matches-start_voice e p q x u w e' m n = ground (arith, m, n)

  matches-release_if :
      (test : NoteVoice F → Bool) (v : NoteVoice F) (e : NoteEvent F)
      → matches (if test v then release_voice fl v else v) e ≡ matches v e
  unfolding matches release_voice
  matches-release_if test v e = ground arith

  start_at-IsDistinct :
      (e : NoteEvent F) (p q : AdsrParameters F) (x : F) (b : NoteVoiceBank F) (i steal : ℕ)
      → IsDistinct b.voices
      → OthersFree b.voices e i
      → IsDistinct (start_at fl e p q x b (i, steal)).1.voices
  unfolding start_at
  start_at-IsDistinct e p q x b i steal d free = elim (Option-cases (get_elem? b.voices i)) [
    | inl h ↦ as_voices b.voices (ground (arith, h)) d
    | inr (u, h) ↦ as_voices (set b.voices i (start_voice fl e p q x u)) (ground (arith, h)) (
        set-IsDistinct b.voices i u (start_voice fl e p q x u) e d free h
          (matches-start_voice e p q x u))
  ]
    where
      as_voices :
          (vs : List (NoteVoice F))
          → (start_at fl e p q x b (i, steal)).1.voices ≡ vs
          → IsDistinct vs
          → IsDistinct (start_at fl e p q x b (i, steal)).1.voices
      as_voices vs h k = subst IsDistinct (sym h) k

  release_where-IsDistinct :
      (test : NoteVoice F → Bool) (vs : List (NoteVoice F))
      → IsDistinct vs
      → IsDistinct (release_where fl test vs)
  unfolding release_where
  release_where-IsDistinct test vs d =
      map-IsDistinct (λ v. if test v then release_voice fl v else v) vs
        (λ v e. matches-release_if test v e) d

  -- If no two voices match one event, then none do after `apply`.
  pub apply-IsDistinct :
      (e : NoteEvent F) (p q : AdsrParameters F) (x : F) (b : NoteVoiceBank F)
      → IsDistinct b.voices
      → IsDistinct (apply fl e p q x b).1.voices
  unfolding apply
  apply-IsDistinct e p q x b d = elim (Bool-cases (e.type == 0 && lt (of_ℕ 0) e.value)) [
    | inl t ↦ as_voices _ (ground (arith, t)) (
        start_at-IsDistinct e p q x b (select_voice b e).0 (select_voice b e).1 d
          (select_voice-OthersFree b e d))
    | inr t ↦ elim (Bool-cases (e.type == 5)) [
      | inl u ↦
          as_voices _ (ground (arith, t, u))
            (release_where-IsDistinct (is_of_channel fl e) b.voices d)
      | inr u ↦ elim (Bool-cases (e.type == 1 || e.type == 0)) [
        | inl z ↦
            as_voices _ (ground (arith, t, u, z))
              (release_where-IsDistinct (λ v. matches v e) b.voices d)
        | inr z ↦ as_voices b.voices (ground (arith, t, u, z)) d
      ]
    ]
  ]
    where
      as_voices :
          (vs : List (NoteVoice F))
          → (apply fl e p q x b).1.voices ≡ vs
          → IsDistinct vs
          → IsDistinct (apply fl e p q x b).1.voices
      as_voices vs h k = subst IsDistinct (sym h) k
