-- ===== src/Common/Capped.antt =====
-- Appending to a `fixed_vector` that has room for `capacity` values, with the counts of the values
-- that went in and of those that were dropped.
use music_ra_t.Common.{
  ℕ, zero, suc, ◌+◌, ◌-◌, ◌%◌, ◌^◌, ◌≤◌, ◌≡◌, refl, sym, ap, ◌∙◌, List, [], ◌∷◌, ◌++◌, true, false,
  arith, length, length-append, leb, leb→le, leb_false→lt, add_u32,
}

module _ {ℓ} {A : Type ℓ} where
  abbrev pub take : ℕ → List A → List A
  take zero xs = []
  take (suc n) [] = []
  take (suc n) (x ∷ xs) = x ∷ take n xs

  take_short : (n : ℕ) (xs : List A) → length xs ≤ n → take n xs ≡ xs
  take_short zero [] h = refl
  take_short zero (x ∷ xs) h = absurd (omega arith)
  take_short (suc n) [] h = refl
  take_short (suc n) (x ∷ xs) h = ap (◌∷◌ x) (take_short n xs (omega arith))

  take-append : (n : ℕ) (xs ys : List A) → n ≤ length xs → take n (xs ++ ys) ≡ take n xs
  take-append zero xs ys h = refl
  take-append (suc n) [] ys h = absurd (omega arith)
  take-append (suc n) (x ∷ xs) ys h = ap (◌∷◌ x) (take-append n xs ys (omega arith))

  pub length-take_le : (n : ℕ) (xs : List A) → length (take n xs) ≤ n
  length-take_le zero xs = omega arith
  length-take_le (suc n) [] = omega arith
  length-take_le (suc n) (x ∷ xs) = omega (arith, length-take_le n xs)

  pub length-take : (n : ℕ) (xs : List A) → length (take n xs) + (length xs - n) ≡ length xs
  length-take zero xs = omega arith
  length-take (suc n) [] = omega arith
  length-take (suc n) (x ∷ xs) = omega (arith, length-take n xs)

  -- `events` are what has room of the values `wanted`; the counts are words of 32 bits.
  abbrev pub Capped : ℕ → List A → List A → ℕ → ℕ → Type ℓ
  Capped capacity wanted events stored dropped =
      (events ≡ take capacity wanted)
      × (stored ≡ length events % 2 ^ 32)
      × (dropped ≡ (length wanted - capacity) % 2 ^ 32)

  length_capped :
      (n : ℕ) (ws es : List A) → es ≡ take n ws → length es + (length ws - n) ≡ length ws
  length_capped n ws es e = rw e (length-take n ws)

  pub Capped-stored :
      (n : ℕ) (ws es : List A) (k d : ℕ) (x : A)
      → leb n (length es) ≡ false
      → Capped n ws es k d
      → Capped n (ws ++ x ∷ []) (es ++ x ∷ []) (add_u32 k 1) d
  Capped-stored n ws es k d x h (e, ek, ed) = (
    rw (take_short n (ws ++ x ∷ []) (omega (arith, counts, leb_false→lt n (length es) h, grown))) (
        ap (λ l. l ++ x ∷ [])
          (e ∙ take_short n ws (omega (arith, counts, leb_false→lt n (length es) h)))),
    omega (arith, ek, length-append es (x ∷ [])),
    omega (arith, ed, grown, counts, leb_false→lt n (length es) h),
  )
    where
      counts : length es + (length ws - n) ≡ length ws
      counts = length_capped n ws es e

      grown : length (ws ++ x ∷ []) ≡ length ws + 1
      grown = length-append ws (x ∷ [])

  pub Capped-dropped :
      (n : ℕ) (ws es : List A) (k d : ℕ) (x : A)
      → leb n (length es) ≡ true
      → Capped n ws es k d
      → Capped n (ws ++ x ∷ []) es k (add_u32 d 1)
  Capped-dropped n ws es k d x h (e, ek, ed) = (
    e ∙ sym (take-append n ws (x ∷ []) (omega (arith, counts, leb→le n (length es) h))),
    ek,
    omega (arith, ed, grown, counts, leb→le n (length es) h),
  )
    where
      counts : length es + (length ws - n) ≡ length ws
      counts = length_capped n ws es e

      grown : length (ws ++ x ∷ []) ≡ length ws + 1
      grown = length-append ws (x ∷ [])

  pub Capped-none : (n : ℕ) → Capped n [] [] 0 0
  Capped-none zero = (refl, omega arith, omega arith)
  Capped-none (suc n) = (refl, omega arith, omega arith)
