-- ===== src/Enumerator/Merge.antt =====
-- What a MergedEnumerator gives, where its sources are in order.
use mathlib.Core.Path.{subst}
use mathlib.Core.List.{Perm, perm_append_comm}
use mathlib.Core.List.Perm
use s_rpc.Base.{
  ℕ, zero, suc, ◌+◌, ◌<◌, ◌≡◌, refl, List, [], ◌∷◌, ◌++◌, Bool, false, arith, length, All,
  append_assoc, append-nil, length-append,
}
use s_rpc.Base.Outcome.{Succeeds, Succeeds-map, Succeeds-bind}
use s_rpc.Enumerator.{Helper, less, has_next, add_source, take_out, next, drain, add_sources}

-- All that the sources of the queue still give, and how much it is.
abbrev pub items : {A : Type 0} → List (Helper A) → List A
items [] = []
items ((x, src) ∷ q) = x ∷ (src ++ items q)

abbrev pub size : {A : Type 0} → List (Helper A) → ℕ
size [] = 0
size ((x, src) ∷ q) = suc (length src) + size q

abbrev pub concat : {A : Type 0} → List (List A) → List A
concat [] = []
concat (src ∷ srcs) = src ++ concat srcs

module _ {A : Type 0} where
  take_out-All :
      (P : Helper A → Type 0) (i : ℕ) (h : Helper A) (q : List (Helper A))
      → All P (h ∷ q)
      → let r = take_out i h q in P r.0 × All P r.1
  unfolding take_out
  take_out-All P zero h q p = p
  take_out-All P (suc i) h [] p = p
  take_out-All P (suc i) h (g ∷ q) p = let (t, rest) = take_out-All P i g q p.1 in (t, (p.0, rest))

  take_out-size :
      (i : ℕ) (h : Helper A) (q : List (Helper A))
      → let r = take_out i h q in size (r.0 ∷ r.1) ≡ size (h ∷ q)
  unfolding take_out
  take_out-size zero h q = refl
  take_out-size (suc i) h [] = refl
  take_out-size (suc i) h (g ∷ q) = omega (arith, take_out-size i g q)

  -- Two helpers may change places.
  swap-perm : (g h : Helper A) (q : List (Helper A)) → Perm (items (g ∷ h ∷ q)) (items (h ∷ g ∷ q))
  swap-perm g h q =
      let gs = g.0 ∷ g.1 in
      let hs = h.0 ∷ h.1 in
      subst (λ l. Perm l (hs ++ (gs ++ items q))) (append_assoc gs hs (items q))
        (subst (λ l. Perm ((gs ++ hs) ++ items q) l) (append_assoc hs gs (items q))
          (Perm.append_right (items q) (perm_append_comm gs hs)))

  take_out-perm :
      (i : ℕ) (h : Helper A) (q : List (Helper A))
      → let r = take_out i h q in Perm (items (r.0 ∷ r.1)) (items (h ∷ q))
  unfolding take_out
  take_out-perm zero h q = Perm.rfl
  take_out-perm (suc i) h [] = Perm.rfl
  take_out-perm (suc i) h (g ∷ q) =
      let r = take_out i g q in
      Perm.trans (swap-perm r.0 h r.1) (Perm.append_left (h.0 ∷ h.1) (take_out-perm i g q))

  add_source-All :
      (P : Helper A → Type 0) (src : List A) (q : List (Helper A))
      → All P q
      → ((x : A) (xs : List A) → src ≡ x ∷ xs → P (x, xs))
      → All P (add_source src q)
  unfolding add_source
  add_source-All P [] q p f = p
  add_source-All P (x ∷ src) q p f = (f x src refl, p)

  items-add_source :
      (src : List A) (q : List (Helper A)) → items (add_source src q) ≡ src ++ items q
  unfolding add_source
  items-add_source [] q = refl
  items-add_source (x ∷ src) q = refl

  size-add_source :
      (src : List A) (q : List (Helper A)) → size (add_source src q) ≡ length src + size q
  unfolding add_source
  size-add_source [] q = omega arith
  size-add_source (x ∷ src) q = refl

  add_sources-perm :
      (srcs : List (List A)) (q : List (Helper A))
      → Perm (items (add_sources srcs q)) (concat srcs ++ items q)
  unfolding add_sources
  add_sources-perm [] q = Perm.rfl
  add_sources-perm (src ∷ srcs) q =
      Perm.trans
        (subst (λ l. Perm (items (add_sources srcs (add_source src q))) (concat srcs ++ l))
          (items-add_source src q) (add_sources-perm srcs (add_source src q)))
        (subst (λ l. Perm l ((src ++ concat srcs) ++ items q))
          (append_assoc (concat srcs) src (items q))
          (Perm.append_right (items q) (perm_append_comm (concat srcs) src)))

  size-add_sources :
      (srcs : List (List A)) (q : List (Helper A))
      → size (add_sources srcs q) ≡ length (concat srcs) + size q
  unfolding add_sources
  size-add_sources [] q = omega arith
  size-add_sources (src ∷ srcs) q = omega (
    arith,
    size-add_sources srcs (add_source src q),
    size-add_source src q,
    length-append src (concat srcs),
  )

-- `le a b` is `!Compare()(a, b)`, the order of the elements.
module _ {A : Type 0} (greater : A → A → Bool)
    (trans : (a b c : A) → greater a b ≡ false → greater b c ≡ false → greater a c ≡ false) where
  abbrev Below : A → List A → Type 0
  Below a xs = All (λ x. greater a x ≡ false) xs

  abbrev pub IsSorted : List A → Type 0
  IsSorted [] = Unit {0}
  IsSorted (x ∷ xs) = Below x xs × IsSorted xs

  Below-trans : (a b : A) (xs : List A) → greater a b ≡ false → Below b xs → Below a xs
  Below-trans a b [] ab p = tt
  Below-trans a b (x ∷ xs) ab p = (trans a b x ab p.0, Below-trans a b xs ab p.1)

  abbrev Ordered : List (Helper A) → Type 0
  Ordered q = All (λ h. IsSorted (h.0 ∷ h.1)) q

  abbrev Above : A → List (Helper A) → Type 0
  Above a q = All (λ h. Below a (h.0 ∷ h.1)) q

  -- What is not above the heads of ordered sources is not above their elements.
  Above-heads :
      (a : A) (q : List (Helper A)) → All (λ h. greater a h.0 ≡ false) q → Ordered q → Above a q
  Above-heads a [] p o = tt
  Above-heads a (h ∷ q) p o = ((p.0, Below-trans a h.0 h.1 p.0 o.0.0), Above-heads a q p.1 o.1)

  add_sources-Ordered :
      (srcs : List (List A)) (q : List (Helper A))
      → All IsSorted srcs
      → Ordered q
      → Ordered (add_sources srcs q)
  unfolding add_sources
  add_sources-Ordered [] q p o = o
  add_sources-Ordered (src ∷ srcs) q p o =
      add_sources-Ordered srcs (add_source src q) p.1
        (add_source-All _ src q o (λ x xs e. subst IsSorted e p.0))

  -- What std::priority_queue promises of its top: it is `<` no element of the queue.
  module _ (top : Helper A → List (Helper A) → ℕ)
      (first : (h : Helper A) (q : List (Helper A))
        → All (λ u. less greater (take_out (top h q) h q).0 u ≡ false) (h ∷ q)) where
    drain_lem :
        (fuel : ℕ) (q : List (Helper A))
        → size q < fuel
        → Ordered q
        → Succeeds
            (λ out. IsSorted out × Perm out (items q) × ((b : A) → Above b q → Below b out))
            (drain top fuel q)
    unfolding drain next has_next
    drain_lem zero q lt o = absurd (omega (arith, lt))
    drain_lem (suc fuel) [] lt o = (tt, Perm.rfl, λ b p. tt)
    drain_lem (suc fuel) (h ∷ q) lt o =
        let i = top h q in
        let (t, rest) = take_out i h q in
        let (ordered, others) = take_out-All (λ g. IsSorted (g.0 ∷ g.1)) i h q o in
        let least = take_out-All (λ u. greater t.0 u.0 ≡ false) i h q (first h q) in
        let above : Above t.0 (add_source t.1 rest) =
          add_source-All _ t.1 rest (Above-heads t.0 rest least.1 others)
            (λ x xs e. subst (Below t.0) e ordered.0) in
        Succeeds-bind _ _ (drain top fuel (add_source t.1 rest)) _
          (drain_lem fuel (add_source t.1 rest)
            (omega (arith, lt, take_out-size i h q, size-add_source t.1 rest))
            (add_source-All _ t.1 rest others (λ x xs e. subst IsSorted e ordered.1)))
          (λ out d. (
            (d.2 t.0 above, d.0),
            Perm.trans (Perm.cons t.0 (subst (λ l. Perm out l) (items-add_source t.1 rest) d.1))
                (take_out-perm i h q),
            λ b p.
                let u = take_out-All (λ g. Below b (g.0 ∷ g.1)) i h q p in
                (u.0.0, d.2 b (add_source-All _ t.1 rest u.1 (λ x xs e. subst (Below b) e u.0.1))),
          ))

    -- Where the negation of Compare is transitive, where Compare of an element of a source and a later
    -- one does not hold, and where std::priority_queue has at its top a helper that is `<` no helper of
    -- the queue, a MergedEnumerator of these sources gives all of their elements, each as often as they
    -- do, so that Compare of one and a later one does not hold, and then has none; with a round for
    -- each element and one more.
    pub merge_lem :
        (srcs : List (List A)) (fuel : ℕ)
        → All IsSorted srcs
        → length (concat srcs) < fuel
        → Succeeds
            (λ out. IsSorted out × Perm out (concat srcs))
            (drain top fuel (add_sources srcs []))
    merge_lem srcs fuel sorted lt =
        Succeeds-map _ _ (drain top fuel (add_sources srcs []))
          (drain_lem fuel (add_sources srcs []) (omega (arith, lt, size-add_sources srcs []))
            (add_sources-Ordered srcs [] sorted tt))
          (λ out d. (
            d.0,
            Perm.trans d.1 (
                subst (Perm (items (add_sources srcs []))) (append-nil (concat srcs))
                  (add_sources-perm srcs [])),
          ))
