-- ===== src/Timeline/Order.antt =====
-- `insert_event` keeps a sorted block sorted and stable: it is insertion behind every event whose
-- offset is not greater.
use mathlib.Core.Path.{ap₂}
use mathlib.Core.List.{Perm}
use mathlib.Core.List.Perm
use music_ra_t.Common.{
  ℕ, suc, ◌+◌, ◌≤◌, ◌<◌, ◌≡◌, refl, sym, ap, ◌∙◌, inl, inr, List, [], ◌∷◌, ◌++◌, arith, length,
  get_elem?, set, ltb, if◌then◌else◌, length-append, append-nil, All, Bool-cases, tests,
}
use music_ra_t.Timeline.{swap_down, insert_event}

-- The events before the one that moves, last first, put back before the rest.
rev_onto : {A : Type 0} → List A → List A → List A
rev_onto [] ys = ys
rev_onto (x ∷ xs) ys = rev_onto xs (x ∷ ys)

rev_onto-rev_onto :
    {A : Type 0} (xs ys zs : List A) → rev_onto (rev_onto xs ys) zs ≡ rev_onto ys (xs ++ zs)
unfolding rev_onto
rev_onto-rev_onto [] ys zs = refl
rev_onto-rev_onto (x ∷ xs) ys zs = rev_onto-rev_onto xs (x ∷ ys) zs

length-rev_onto : {A : Type 0} (xs ys : List A) → length (rev_onto xs ys) ≡ length xs + length ys
unfolding rev_onto
length-rev_onto [] ys = omega arith
length-rev_onto (x ∷ xs) ys = omega (arith, length-rev_onto xs (x ∷ ys))

get_elem?-rev_onto :
    {A : Type 0} (rs zs : List A) (k : ℕ)
    → get_elem? (rev_onto rs zs) (length rs + k) ≡ get_elem? zs k
unfolding rev_onto
get_elem?-rev_onto [] zs k = ap (get_elem? zs) (omega arith)
get_elem?-rev_onto (r ∷ rs) zs k =
    ap (get_elem? (rev_onto rs (r ∷ zs))) (omega arith) ∙ get_elem?-rev_onto rs (r ∷ zs) (suc k)

set-rev_onto :
    {A : Type 0} (rs zs : List A) (k : ℕ) (v : A)
    → set (rev_onto rs zs) (length rs + k) v ≡ rev_onto rs (set zs k v)
unfolding rev_onto
set-rev_onto [] zs k v = ap (λ n. set zs n v) (omega arith)
set-rev_onto (r ∷ rs) zs k v =
    ap (λ n. set (rev_onto rs (r ∷ zs)) n v) (omega arith) ∙ set-rev_onto rs (r ∷ zs) (suc k) v

module _ {A : Type 0} (sample_offset : A → ℕ) where
  abbrev pub IsSorted : List A → Type 0
  IsSorted [] = Unit {0}
  IsSorted (x ∷ xs) = All (λ y. sample_offset x ≤ sample_offset y) xs × IsSorted xs

  -- The specification: behind every event that is not later.
  unfoldable pub insert_sorted : A → List A → List A
  insert_sorted e [] = e ∷ []
  insert_sorted e (x ∷ xs) =
      let rest = insert_sorted e xs in
      if ltb (sample_offset e) (sample_offset x) then e ∷ x ∷ xs else x ∷ rest

  -- One round of the loop, as it acts on the events before the moving one.
  swap_back : List A → A → List A → List A
  swap_back [] e ys = e ∷ ys
  swap_back (a ∷ rs) e ys =
      let further = swap_back rs e (a ∷ ys) in
      if ltb (sample_offset e) (sample_offset a) then further else rev_onto rs (a ∷ e ∷ ys)

  swap_down-swap_back :
      (rs : List A) (e : A) (ys : List A)
      → swap_down sample_offset (length rs) (rev_onto rs (e ∷ ys)) ≡ swap_back rs e ys
  unfolding swap_down swap_back rev_onto
  swap_down-swap_back [] e ys = refl
  swap_down-swap_back (a ∷ rs) e ys = ground (
    arith,
    at (a ∷ e ∷ ys) 1 refl,
    at (a ∷ e ∷ ys) 0 refl,
    put (a ∷ e ∷ ys) 1 a,
    put (a ∷ a ∷ ys) 0 e,
    swap_down-swap_back rs e (a ∷ ys),
  )
    where
      at :
          (zs : List A) (k : ℕ) {n : ℕ}
          → n ≡ length rs + k
          → get_elem? (rev_onto rs zs) n ≡ get_elem? zs k
      at zs k p = rw p (get_elem?-rev_onto rs zs k)

      put :
          (zs : List A) (k : ℕ) (v : A)
          → set (rev_onto rs zs) (length rs + k) v ≡ rev_onto rs (set zs k v)
      put = set-rev_onto rs

  Sorted-suffix : (rs zs : List A) → IsSorted (rev_onto rs zs) → IsSorted zs
  unfolding rev_onto
  Sorted-suffix [] zs h = h
  Sorted-suffix (r ∷ rs) zs h = (Sorted-suffix rs (r ∷ zs) h).1

  insert_sorted-rev_onto :
      (rs : List A) (e a : A) (zs : List A)
      → IsSorted (rev_onto rs (a ∷ zs))
      → sample_offset a ≤ sample_offset e
      → insert_sorted e (rev_onto rs (a ∷ zs)) ≡ rev_onto rs (a ∷ insert_sorted e zs)
  unfolding rev_onto insert_sorted
  insert_sorted-rev_onto [] e a zs s h = ground arith
  insert_sorted-rev_onto (r ∷ rs) e a zs s h =
      insert_sorted-rev_onto rs e r (a ∷ zs) s (omega (arith, (Sorted-suffix rs (r ∷ a ∷ zs) s).0))
      ∙ ap (λ l. rev_onto rs (r ∷ l)) (ground arith)

  insert_sorted_first :
      (e : A) (zs : List A)
      → All (λ z. sample_offset e < sample_offset z) zs
      → insert_sorted e zs ≡ e ∷ zs
  unfolding insert_sorted
  insert_sorted_first e [] h = refl
  insert_sorted_first e (z ∷ zs) h = ground arith

  swap_back-insert_sorted :
      (rs : List A) (e : A) (ys : List A)
      → IsSorted (rev_onto rs ys)
      → All (λ y. sample_offset e < sample_offset y) ys
      → swap_back rs e ys ≡ insert_sorted e (rev_onto rs ys)
  unfolding swap_back rev_onto
  swap_back-insert_sorted [] e ys s h = sym (insert_sorted_first e ys h)
  swap_back-insert_sorted (a ∷ rs) e ys s h = ground (
    arith,
    swap_back-insert_sorted rs e (a ∷ ys),
    insert_sorted_first e ys h,
    insert_sorted-rev_onto rs e a ys s,
  )

  -- On a sorted block, the loop of `insert_event` inserts the event behind every event whose
  -- offset is not greater, and moves no other event.
  pub insert_event-insert_sorted :
      (e : A) (xs : List A) → IsSorted xs → insert_event sample_offset e xs ≡ insert_sorted e xs
  unfolding insert_event
  insert_event-insert_sorted e xs s =
      ap₂ (swap_down sample_offset) (omega (arith, length-append xs (e ∷ []), count)) (sym front)
      ∙ swap_down-swap_back (rev_onto xs []) e []
      ∙ swap_back-insert_sorted (rev_onto xs []) e [] (rw whole s) tt
      ∙ ap (insert_sorted e) whole
    where
      whole : rev_onto (rev_onto xs []) [] ≡ xs
      whole = rw (rev_onto-rev_onto xs [] []) (unfold rev_onto in append-nil xs)

      front : rev_onto (rev_onto xs []) (e ∷ []) ≡ xs ++ e ∷ []
      front = rw (rev_onto-rev_onto xs [] (e ∷ [])) (unfold rev_onto in refl)

      count : length (rev_onto xs []) ≡ length xs + 0
      count = length-rev_onto xs []

  pub All-insert_sorted :
      (P : A → Type 0) (e : A) (xs : List A) → P e → All P xs → All P (insert_sorted e xs)
  unfolding insert_sorted
  All-insert_sorted P e [] h hs = (h, tt)
  All-insert_sorted P e (x ∷ xs) h hs =
      elim (Bool-cases (ltb (sample_offset e) (sample_offset x))) [
        | inl t ↦ rw t (h, hs)
        | inr t ↦ rw t (hs.0, All-insert_sorted P e xs h hs.1)
      ]

  All-later :
      (a b : ℕ) (xs : List A)
      → a ≤ b
      → All (λ y. b ≤ sample_offset y) xs
      → All (λ y. a ≤ sample_offset y) xs
  All-later a b [] h hs = tt
  All-later a b (x ∷ xs) h hs = (omega arith, All-later a b xs h hs.1)

  pub insert_sorted-IsSorted : (e : A) (xs : List A) → IsSorted xs → IsSorted (insert_sorted e xs)
  unfolding insert_sorted
  insert_sorted-IsSorted e [] s = (tt, tt)
  insert_sorted-IsSorted e (x ∷ xs) s =
      elim (Bool-cases (ltb (sample_offset e) (sample_offset x))) [
        | inl t ↦
            rw t
              ((omega tests, All-later (sample_offset e) (sample_offset x) xs (omega tests) s.0), s)
        | inr t ↦ rw t (
          All-insert_sorted (λ y. sample_offset x ≤ sample_offset y) e xs (omega tests) s.0,
          insert_sorted-IsSorted e xs s.1,
        )
      ]

  pub insert_event-IsSorted :
      (e : A) (xs : List A) → IsSorted xs → IsSorted (insert_event sample_offset e xs)
  insert_event-IsSorted e xs s =
      rw (insert_event-insert_sorted e xs s) (insert_sorted-IsSorted e xs s)

  length-insert_sorted : (e : A) (xs : List A) → length (insert_sorted e xs) ≡ suc (length xs)
  unfolding insert_sorted
  length-insert_sorted e [] = refl
  length-insert_sorted e (x ∷ xs) = ground (arith, length-insert_sorted e xs)

  insert_sorted-perm : (e : A) (xs : List A) → Perm (insert_sorted e xs) (e ∷ xs)
  unfolding insert_sorted
  insert_sorted-perm e [] = Perm.refl (e ∷ [])
  insert_sorted-perm e (x ∷ xs) = elim (Bool-cases (ltb (sample_offset e) (sample_offset x))) [
    | inl t ↦ rw t (Perm.refl (e ∷ x ∷ xs))
    | inr t ↦ rw t (Perm.trans (Perm.cons x (insert_sorted-perm e xs)) (Perm.swap e x xs))
  ]

  -- Nothing is lost, and the block grows by one event.
  pub insert_event-perm :
      (e : A) (xs : List A) → IsSorted xs → Perm (insert_event sample_offset e xs) (e ∷ xs)
  insert_event-perm e xs s = rw (insert_event-insert_sorted e xs s) (insert_sorted-perm e xs)

  pub length-insert_event :
      (e : A) (xs : List A)
      → IsSorted xs
      → length (insert_event sample_offset e xs) ≡ suc (length xs)
  length-insert_event e xs s = rw (insert_event-insert_sorted e xs s) (length-insert_sorted e xs)
