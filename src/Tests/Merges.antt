-- ===== src/Tests/Merges.antt =====
-- A MergedEnumerator (src/base/basetypes.hpp) of numbers.
use mathlib.Core.Path.{subst}
use mathlib.Core.List.{Perm}
use s_rpc.Base.{
  ℕ, suc, ◌≡◌, refl, sym, List, [], ◌∷◌, Bool, false, arith, ltb, All, if◌then◌else◌, Bool-cases,
  inl, inr,
}
use s_rpc.Base.Outcome.{done, Succeeds}
use s_rpc.Enumerator.{Helper, has_next, add_source, take_out, next, drain, add_sources}
use s_rpc.Enumerator.Merge.{IsSorted, concat, merge_lem}

-- std::greater
abbrev greater : ℕ → ℕ → Bool
greater a b = ltb b a

greater_trans : (a b c : ℕ) → greater a b ≡ false → greater b c ≡ false → greater a c ≡ false
greater_trans a b c ab bc = ground (arith, ab, bc)

-- The place of a least element.
least : Helper ℕ → List (Helper ℕ) → ℕ
unfolding take_out
least h [] = 0
least h (g ∷ q) = let i = least g q in if ltb (take_out i g q).0.0 h.0 then suc i else 0

not_above :
    (a b : ℕ) (q : List (Helper ℕ))
    → ltb b a ≡ false
    → All (λ u. greater b u.0 ≡ false) q
    → All (λ u. greater a u.0 ≡ false) q
not_above a b [] le p = tt
not_above a b (u ∷ q) le p = (greater_trans a b u.0 le p.0, not_above a b q le p.1)

least_first :
    (h : Helper ℕ) (q : List (Helper ℕ))
    → All (λ u. greater (take_out (least h q) h q).0.0 u.0 ≡ false) (h ∷ q)
unfolding least take_out
least_first h [] = ground arith
least_first h (g ∷ q) =
    let m : ℕ = (take_out (least g q) g q).0.0 in
    let ih : All (λ u. greater m u.0 ≡ false) (g ∷ q) = least_first g q in
    let goal = λ (i : ℕ). All (λ u. greater (take_out i h (g ∷ q)).0.0 u.0 ≡ false) (h ∷ g ∷ q) in
    elim (Bool-cases (ltb m h.0)) [
      | inl less ↦
          let picks : least h (g ∷ q) ≡ suc (least g q) = rw less refl in
          let behind : greater m h.0 ≡ false = ground (arith, less) in
          subst goal (sym picks) (behind, ih)
      | inr more ↦
          let picks : least h (g ∷ q) ≡ 0 = rw more refl in
          let itself : greater h.0 h.0 ≡ false = ground arith in
          subst goal (sym picks) (itself, not_above h.0 m (g ∷ q) more ih)
    ]

abbrev sources : List (List ℕ)
sources = (1 ∷ 4 ∷ []) ∷ (2 ∷ []) ∷ []

merged : drain least 4 (add_sources sources []) ≡ done (1 ∷ 2 ∷ 4 ∷ [])
unfolding drain next has_next add_sources add_source least take_out
merged = refl

merge_lem_example :
    Succeeds
      (λ out. IsSorted greater greater_trans out × Perm out (concat sources))
      (drain least 4 (add_sources sources []))
merge_lem_example =
    merge_lem greater greater_trans least least_first sources 4
      (((refl, tt), (tt, tt)), ((tt, tt), tt)) (omega arith)
