-- ===== src/Strop/Split.antt =====
-- What strsplit returns.
use mathlib.Core.Option.{none-ne-some, some-injective}
use mathlib.Core.Path.{subst}
use s_rpc.Base.{
  ℕ, zero, suc, ◌+◌, ◌<◌, ◌≡◌, ◌≢◌, refl, sym, ◌∙◌, ap, List, [], ◌∷◌, Bool, false, not, Option,
  some, none, arith, length, take, drop, ◌==◌, if◌then◌else◌, Bool-cases, Option-cases, inl, inr,
}
use s_rpc.Strop.{shift, index_of}

abbrev pub is_sep : ℕ → ℕ → Bool
is_sep sep c = c == sep

abbrev pub no_sep : ℕ → ℕ → Bool
no_sep sep c = not (c == sep)

-- A character before the first of some fields.
abbrev pub lead : ℕ → List (List ℕ) → List (List ℕ)
lead c [] = (c ∷ []) ∷ []
lead c (f ∷ fs) = (c ∷ f) ∷ fs

-- The fields between the separators, empty ones included.
abbrev pub fields : ℕ → List ℕ → List (List ℕ)
fields sep [] = [] ∷ []
fields sep (c ∷ cs) = if c == sep then [] ∷ fields sep cs else lead c (fields sep cs)

abbrev pub non_empty : List (List ℕ) → List (List ℕ)
non_empty [] = []
non_empty ([] ∷ fs) = non_empty fs
non_empty ((c ∷ f) ∷ fs) = (c ∷ f) ∷ non_empty fs

abbrev pub words : ℕ → List ℕ → List (List ℕ)
words sep str = non_empty (fields sep str)

shift_back : (o : Option ℕ) (k : ℕ) → shift 1 o ≡ some (suc k) → o ≡ some k
shift_back none k e = absurd (none-ne-some (suc k) e)
shift_back (some i) k e = ap some (omega (arith, some-injective (1 + i) (suc k) e))

shift-ne-zero : (o : Option ℕ) → shift 1 o ≢ some 0
shift-ne-zero none e = absurd (none-ne-some 0 e)
shift-ne-zero (some i) e = omega (arith, some-injective (1 + i) 0 e)

-- The test fails at the first character, so that the place is further on.
index_of-later :
    (test : ℕ → Bool) (c : ℕ) (cs : List ℕ) (k : ℕ)
    → test c ≡ false
    → index_of test (c ∷ cs) ≡ some (suc k)
    → index_of test cs ≡ some k
unfolding index_of
index_of-later test c cs k on e =
    shift_back (index_of test cs) k
      (subst (λ b. (if b then some 0 else shift 1 (index_of test cs)) ≡ some (suc k)) on e)

index_of-ne-zero :
    (test : ℕ → Bool) (c : ℕ) (cs : List ℕ) → test c ≡ false → index_of test (c ∷ cs) ≢ some 0
unfolding index_of
index_of-ne-zero test c cs on e =
    shift-ne-zero (index_of test cs)
      (subst (λ b. (if b then some 0 else shift 1 (index_of test cs)) ≡ some 0) on e)

module _ (sep : ℕ) where
  fields-none : (xs : List ℕ) → index_of (is_sep sep) xs ≡ none → fields sep xs ≡ xs ∷ []
  unfolding index_of
  fields-none [] e = refl
  fields-none (c ∷ cs) e = elim (Option-cases (index_of (is_sep sep) cs)) [
    | inl end ↦ ground (arith, e, end, fields-none cs end)
    | inr (i, at) ↦ ground (arith, e, at)
  ]

  fields-some :
      (xs : List ℕ) (k : ℕ)
      → index_of (is_sep sep) xs ≡ some k
      → fields sep xs ≡ take k xs ∷ fields sep (drop (suc k) xs)
  unfolding index_of
  fields-some [] k e = absurd (none-ne-some k e)
  fields-some (c ∷ cs) zero e = elim (Bool-cases (c == sep)) [
    | inl here ↦ rw here
    | inr on ↦ absurd (index_of-ne-zero (is_sep sep) c cs on e)
  ]
  fields-some (c ∷ cs) (suc k) e = elim (Bool-cases (c == sep)) [
    | inl here ↦ ground (arith, e, here)
    | inr on ↦ let at = index_of-later (is_sep sep) c cs k on e in rw (on, fields-some cs k at)
  ]

  -- Leading separators make empty fields only.
  pub words-skip :
      (xs : List ℕ) (j : ℕ)
      → index_of (no_sep sep) xs ≡ some j
      → words sep xs ≡ words sep (drop j xs)
  unfolding index_of
  words-skip [] j e = absurd (none-ne-some j e)
  words-skip (c ∷ cs) zero e = refl
  words-skip (c ∷ cs) (suc j) e = elim (Bool-cases (c == sep)) [
    | inl here ↦ rw here (words-skip cs j (index_of-later (no_sep sep) c cs j (ap not here) e))
    | inr on ↦ ground (arith, e, on)
  ]

  pub words-none : (xs : List ℕ) → index_of (no_sep sep) xs ≡ none → words sep xs ≡ []
  unfolding index_of
  words-none [] e = refl
  words-none (c ∷ cs) e = elim (Option-cases (index_of (no_sep sep) cs)) [
    | inl end ↦ ground (arith, e, end, words-none cs end)
    | inr (i, at) ↦ ground (arith, e, at)
  ]

  -- A separator that is found makes no difference to what follows it.
  words-sep :
      (xs : List ℕ) (k : ℕ)
      → index_of (is_sep sep) xs ≡ some k
      → words sep (drop k xs) ≡ words sep (drop (suc k) xs)
  unfolding index_of
  words-sep [] k e = absurd (none-ne-some k e)
  words-sep (c ∷ cs) zero e = elim (Bool-cases (c == sep)) [
    | inl here ↦ rw here
    | inr on ↦ absurd (index_of-ne-zero (is_sep sep) c cs on e)
  ]
  words-sep (c ∷ cs) (suc k) e = elim (Bool-cases (c == sep)) [
    | inl here ↦ ground (arith, e, here)
    | inr on ↦ words-sep cs k (index_of-later (is_sep sep) c cs k on e)
  ]

  -- A word, up to the separator behind it.
  pub words-cons :
      (xs : List ℕ) (k : ℕ)
      → index_of (no_sep sep) xs ≡ some 0
      → index_of (is_sep sep) xs ≡ some k
      → (0 < k) × (words sep xs ≡ take k xs ∷ words sep (drop k xs))
  unfolding index_of
  words-cons [] k e f = absurd (none-ne-some 0 e)
  words-cons (c ∷ cs) zero e f = absurd (elim (Bool-cases (c == sep)) [
    | inl here ↦ index_of-ne-zero (no_sep sep) c cs (ap not here) e
    | inr on ↦ index_of-ne-zero (is_sep sep) c cs on f
  ])
  words-cons (c ∷ cs) (suc k) e f = (
    omega arith,
    ap non_empty (fields-some (c ∷ cs) (suc k) f)
        ∙ ap (◌∷◌ (c ∷ take k cs)) (sym (words-sep (c ∷ cs) (suc k) f)),
  )

  -- A word with no separator behind it.
  pub words-last :
      (xs : List ℕ)
      → index_of (no_sep sep) xs ≡ some 0
      → index_of (is_sep sep) xs ≡ none
      → (0 < length xs) × (words sep xs ≡ xs ∷ [])
  unfolding index_of
  words-last [] e f = absurd (none-ne-some 0 e)
  words-last (c ∷ cs) e f = (omega arith, ap non_empty (fields-none (c ∷ cs) f))

pub index_of-lt-length :
    (test : ℕ → Bool) (xs : List ℕ) (k : ℕ) → index_of test xs ≡ some k → k < length xs
unfolding index_of
index_of-lt-length test [] k e = absurd (none-ne-some k e)
index_of-lt-length test (c ∷ cs) zero e = omega arith
index_of-lt-length test (c ∷ cs) (suc k) e = elim (Bool-cases (test c)) [
  | inl here ↦ ground (arith, e, here)
  | inr on ↦ omega (arith, index_of-lt-length test cs k (index_of-later test c cs k on e))
]

pub index_of-drop :
    (test : ℕ → Bool) (xs : List ℕ) (k : ℕ)
    → index_of test xs ≡ some k
    → index_of test (drop k xs) ≡ some 0
unfolding index_of
index_of-drop test [] k e = absurd (none-ne-some k e)
index_of-drop test (c ∷ cs) zero e = e
index_of-drop test (c ∷ cs) (suc k) e = elim (Bool-cases (test c)) [
  | inl here ↦ ground (arith, e, here)
  | inr on ↦ index_of-drop test cs k (index_of-later test c cs k on e)
]
