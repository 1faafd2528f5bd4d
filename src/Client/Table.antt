-- ===== src/Client/Table.antt =====
-- The table `pending_fu_` of a client, and the store of its futures.
use s_rpc.Base.{
  ℕ, Bool, ◌<◌, ◌≡◌, ◌≢◌, refl, sym, ◌∙◌, ap, true, false, some, List, [], ◌∷◌, arith, All,
  Bool-cases, inl, inr, if◌then◌else◌, ◌==◌, ==_refl,
}
use mathlib.Core.Path.{subst}
use s_rpc.Base.Int.{ℤ, pos, eq_ℤ, eq_of_parts}
use s_rpc.Client.{Future, find, erase, update}

eq_ℤ_sound : (a b : ℤ) → eq_ℤ a b ≡ true → a ≡ b
eq_ℤ_sound a b e = eq_of_parts a b (ground arith)

pub eq_ℤ-false : (a b : ℤ) → a ≢ b → eq_ℤ a b ≡ false
eq_ℤ-false a b ne = ground (arith, eq_of_parts a b)

pub find-erase : (k x : ℤ) (es : List (ℤ × ℕ)) → k ≢ x → find k (erase x es) ≡ find k es
unfolding find erase
find-erase k x [] ne = refl
find-erase k x ((y, a) ∷ es) ne = elim (Bool-cases (eq_ℤ y x)) [
  | inl same ↦
      let skipped : eq_ℤ y k ≡ false = eq_ℤ-false y k (λ e. ne (sym e ∙ eq_ℤ_sound y x same)) in
      rw (same, skipped) (find-erase k x es ne)
  | inr other ↦ rw other (ap (λ o. if eq_ℤ y k then some a else o) (find-erase k x es ne))
]

pub eq_ℤ_refl : (a : ℤ) → eq_ℤ a a ≡ true
eq_ℤ_refl a = ground arith

-- An entry: the xid is the number of the future.
abbrev pub IsEntry : ℕ → ℤ × ℕ → Type 0
IsEntry n e = (e.0 ≡ pos e.1) × (e.1 < n)

abbrev pub OneEntry : List (ℤ × ℕ) → Type 0
OneEntry [] = Unit {0}
OneEntry (e ∷ es) = All (λ d. d.1 ≢ e.1) es × OneEntry es

-- Erasing keeps what holds of all entries.
pub All-erase : (P : ℤ × ℕ → Type 0) (x : ℤ) (es : List (ℤ × ℕ)) → All P es → All P (erase x es)
unfolding erase
All-erase P x [] p = tt
All-erase P x ((k, a) ∷ es) p = elim (Bool-cases (eq_ℤ k x)) [
  | inl same ↦ rw same (All-erase P x es p.1)
  | inr other ↦ rw other (p.0, All-erase P x es p.1)
]

pub OneEntry-erase : (x : ℤ) (es : List (ℤ × ℕ)) → OneEntry es → OneEntry (erase x es)
unfolding erase
OneEntry-erase x [] p = tt
OneEntry-erase x ((k, a) ∷ es) p = elim (Bool-cases (eq_ℤ k x)) [
  | inl same ↦ rw same (OneEntry-erase x es p.1)
  | inr other ↦ rw other (All-erase (λ d. d.1 ≢ a) x es p.0, OneEntry-erase x es p.1)
]

-- After erasing, the number is gone from the table.
pub erase-gone :
    (n a : ℕ) (es : List (ℤ × ℕ)) → All (IsEntry n) es → All (λ d. d.1 ≢ a) (erase (pos a) es)
unfolding erase
erase-gone n a [] i = tt
erase-gone n a ((k, b) ∷ es) i = elim (Bool-cases (eq_ℤ k (pos a))) [
  | inl same ↦ rw same (erase-gone n a es i.1)
  | inr other ↦ rw other (
    (λ e. false_true (sym other ∙ ap (λ x. eq_ℤ x (pos a)) (i.0.0 ∙ ap pos e) ∙ eq_ℤ_refl (pos a))),
    erase-gone n a es i.1,
  )
]
  where
    false_true : ◌≡◌ {A = Bool} false true → ⊥
    false_true e = absurd (ground arith)

-- What is found is an entry of that xid.
pub find_sound :
    (n : ℕ) (x : ℤ) (es : List (ℤ × ℕ)) (a : ℕ)
    → All (IsEntry n) es
    → find x es ≡ some a
    → (x ≡ pos a) × (a < n)
unfolding find
find_sound n x [] a i e = absurd (ground arith)
find_sound n x ((k, b) ∷ es) a i e = elim (Bool-cases (eq_ℤ k x)) [
  | inl same ↦
      let this : some b ≡ some a = rw same at e in
      let b_a : b ≡ a = ground arith in
      (sym (eq_ℤ_sound k x same) ∙ i.0.0 ∙ ap pos b_a, omega (arith, b_a, i.0.1))
  | inr other ↦ find_sound n x es a i.1 (rw other at e)
]

pub All-find :
    (P : ℤ × ℕ → Type 0) (n : ℕ) (x : ℤ) (es : List (ℤ × ℕ)) (a : ℕ)
    → All (IsEntry n) es
    → All P es
    → find x es ≡ some a
    → P (pos a, a)
unfolding find
All-find P n x [] a i p e = absurd (ground arith)
All-find P n x ((k, b) ∷ es) a i p e = elim (Bool-cases (eq_ℤ k x)) [
  | inl same ↦
      let this : some b ≡ some a = rw same at e in
      let b_a : b ≡ a = ground arith in subst P (λ j. ((i.0.0 ∙ ap pos b_a) j, b_a j)) p.0
  | inr other ↦ All-find P n x es a i.1 p.1 (rw other at e)
]

pub update_self : (fs : ℕ → Future) (a : ℕ) (f : Future) → update fs a f a ≡ f
update_self fs a f = rw (==_refl a) refl

pub update_other : (fs : ℕ → Future) (a : ℕ) (f : Future) (b : ℕ) → b ≢ a → update fs a f b ≡ fs b
update_other fs a f b ne = let e : b == a ≡ false = ground arith in rw e refl
