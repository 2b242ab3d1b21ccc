-- ===== src/ControlMapper/Table/Config.antt =====
-- `configure` and `synchronize` leave a table that `process` accepts.
use mathlib.Core.List.{Mem, mem-cons_self, mem-cons_of_mem}
use music_ra_t.Common.{
  ℕ, ◌≡◌, ◌≢◌, ◌≤◌, refl, inl, inr, List, [], ◌∷◌, ◌++◌, map, true, false, ◌||◌, not, arith,
  Bool-cases, ◌==◌, All, length, ltb,
}
use music_ra_t.Common.Floats.{Floats, IsOrdered, clamp_bounds}
use music_ra_t.Protocol.{ParameterState, CompiledControlBinding}
use music_ra_t.ControlMapper.{ConfigError, Entry, valid_binding}
use music_ra_t.ControlMapper.Table.{
  has_id, check_bindings, initial_entry, accepted, configure, follows, synchronized,
  synchronize_entries, synchronize,
}
use music_ra_t.ControlMapper.Output.{IsEntry}

module _ (fl : Floats) where
  open fl use {F, lt, le, is_finite}

  -- No two bindings have the same identifier.
  abbrev pub Distinct : List (CompiledControlBinding F) → Type 0
  Distinct [] = Unit {0}
  Distinct (b ∷ bs) = All (λ c. c.binding_id ≢ b.binding_id) bs × Distinct bs

  abbrev pub IsValid : List (CompiledControlBinding F) → Type 0
  IsValid bs = All (λ b. valid_binding fl b ≡ true) bs

  Apart : List (CompiledControlBinding F) → List (CompiledControlBinding F) → Type 0
  Apart before bs = All (λ b. has_id fl b.binding_id before ≡ false) bs

  has_id-append :
      (i : ℕ) (xs : List (CompiledControlBinding F)) (b : CompiledControlBinding F)
      → has_id fl i (xs ++ b ∷ []) ≡ false
      → (has_id fl i xs ≡ false) × (i ≢ b.binding_id)
  unfolding has_id
  has_id-append i [] b h = (refl, λ e. ground (arith, e))
  has_id-append i (x ∷ xs) b h = ground (arith, has_id-append i xs b)

  Apart-append :
      (before bs : List (CompiledControlBinding F)) (b : CompiledControlBinding F)
      → Apart (before ++ b ∷ []) bs
      → Apart before bs × All (λ c. c.binding_id ≢ b.binding_id) bs
  unfolding Apart
  Apart-append before [] b h = (tt, tt)
  Apart-append before (c ∷ cs) b (h, hs) =
      let here = has_id-append c.binding_id before b h in
      let rest = Apart-append before cs b hs in ((here.0, rest.0), (here.1, rest.1))

  check_bindings_ok :
      (before bs : List (CompiledControlBinding F))
      → check_bindings fl before bs ≡ ConfigError.no_error
      → IsValid bs × Apart before bs × Distinct bs
  unfolding check_bindings Apart
  check_bindings_ok before [] h = (tt, tt, tt)
  check_bindings_ok before (b ∷ bs) h = elim (Bool-cases (valid_binding fl b)) [
    | inr t ↦ absurd (refused_invalid t)
    | inl t ↦ elim (Bool-cases (has_id fl b.binding_id before)) [
      | inl d ↦ absurd (refused_twice t d)
      | inr d ↦
          let rest = check_bindings_ok (before ++ b ∷ []) bs (passed t d) in
          let apart = Apart-append before bs b rest.1 in
          ((t, rest.0), (d, apart.0), (apart.1, rest.2))
    ]
  ]
    where
      refused_invalid : valid_binding fl b ≡ false → ⊥
      refused_invalid t = ground arith

      refused_twice : valid_binding fl b ≡ true → has_id fl b.binding_id before ≡ true → ⊥
      refused_twice t d = ground arith

      passed :
          valid_binding fl b ≡ true
          → has_id fl b.binding_id before ≡ false
          → check_bindings fl (before ++ b ∷ []) bs ≡ ConfigError.no_error
      passed t d = ground arith

  module _ (o : IsOrdered fl) where
    target_order :
        (b : CompiledControlBinding F)
        → valid_binding fl b ≡ true
        → lt b.target_maximum b.target_minimum ≡ false
    unfolding valid_binding
    target_order b h = ground (arith, o.not_lt_of_le b.target_minimum b.target_maximum)

    initial_entries-IsEntry :
        (bs cs : List (CompiledControlBinding F))
        → ((b : CompiledControlBinding F) → Mem b cs → Mem b bs)
        → IsValid cs
        → All (IsEntry fl bs) (map (initial_entry fl) cs)
    unfolding initial_entry
    initial_entries-IsEntry bs [] inside h = tt
    initial_entries-IsEntry bs (c ∷ cs) inside (h, hs) =
        let good =
          clamp_bounds fl o c.initial_value c.target_minimum c.target_maximum (target_order c h) in
        (
          (target_order c h, (good, good), inside c mem-cons_self),
          initial_entries-IsEntry bs cs (λ b m. inside b (mem-cons_of_mem c m)) hs,
        )

    -- When `configure` accepts a list of bindings, with an order on the numbers, every binding is
    -- valid, no two have the same identifier, there are at most `max_bindings`, and the new table
    -- is one over these bindings, each state between the target bounds of its binding.
    pub configure_lem :
        (max_bindings : ℕ) (bs : List (CompiledControlBinding F)) (xs : List (Entry F))
        → (configure fl max_bindings bs xs).0 ≡ ConfigError.no_error
        → (length bs ≤ max_bindings)
          × IsValid bs
          × Distinct bs
          × All (IsEntry fl bs) (configure fl max_bindings bs xs).1
    unfolding configure accepted
    configure_lem max_bindings bs xs h = elim (Bool-cases (ltb max_bindings (length bs))) [
      | inl t ↦ absurd (ground arith)
      | inr t ↦
          let e : check_bindings fl [] bs ≡ ConfigError.no_error = ground arith in
          let ok = check_bindings_ok [] bs e in
          rw (t, e) (ground arith, ok.0, ok.2, initial_entries-IsEntry bs bs (λ b m. m) ok.0)
    ]

    -- When `configure` refuses a list, the table stays as it was.
    pub configure_refused :
        (max_bindings : ℕ) (bs : List (CompiledControlBinding F)) (xs : List (Entry F))
        → (configure fl max_bindings bs xs).0 ≢ ConfigError.no_error
        → (configure fl max_bindings bs xs).1 ≡ xs
    unfolding configure accepted
    configure_refused max_bindings bs xs h = ground arith

    synchronized-IsEntry :
        (bs : List (CompiledControlBinding F)) (p : ParameterState F) (x : Entry F)
        → IsEntry fl bs x
        → IsEntry fl bs (synchronized fl p x)
    unfolding synchronized
    synchronized-IsEntry bs p x (h, hs, m) =
        let good = clamp_bounds fl o p.value x.binding.target_minimum x.binding.target_maximum h in
        (h, (good, good), m)

    synchronize_entries-IsEntry :
        (bs : List (CompiledControlBinding F)) (p : ParameterState F) (xs : List (Entry F)) (n : ℕ)
        → All (IsEntry fl bs) xs
        → All (IsEntry fl bs) (synchronize_entries fl p xs n).0
    unfolding synchronize_entries
    synchronize_entries-IsEntry bs p [] n hs = tt
    synchronize_entries-IsEntry bs p (x ∷ xs) n (h, hs) =
        elim (Bool-cases (follows fl x.binding p)) [
          | inl t ↦ rw t (synchronized-IsEntry bs p x h, synchronize_entries-IsEntry bs p xs _ hs)
          | inr t ↦ rw t (h, synchronize_entries-IsEntry bs p xs n hs)
        ]

    -- `synchronize` keeps a table over `bs`, with an order on the numbers.
    synchronize-IsEntry :
        (bs : List (CompiledControlBinding F)) (ps : List (ParameterState F)) (xs : List (Entry F))
        (n : ℕ)
        → All (IsEntry fl bs) xs
        → All (IsEntry fl bs) (synchronize fl ps xs n).0
    unfolding synchronize
    synchronize-IsEntry bs [] xs n hs = hs
    synchronize-IsEntry bs (p ∷ ps) xs n hs =
        elim (Bool-cases (p.parameter_id == 0 || not (is_finite p.value))) [
          | inl t ↦ rw t (synchronize-IsEntry bs ps xs n hs)
          | inr t ↦ rw t (synchronize-IsEntry bs ps _ _ (synchronize_entries-IsEntry bs p xs n hs))
        ]
