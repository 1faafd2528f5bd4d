-- ===== src/Client/Emptied.antt =====
-- `invalidate_pending_futures` empties the table and settles every future that stood in it.
use s_rpc.Base.{
  ℕ, ◌<◌, ◌≡◌, ◌≢◌, ◌⊎◌, inl, inr, refl, sym, ◌∙◌, ap, true, false, some, List, [], ◌∷◌, arith, All,
  Bool-cases,
}
use mathlib.Core.Path.{subst}
use s_rpc.Base.Int.{ℤ, pos}
use s_rpc.Base.Outcome.{done}
use s_rpc.Client.{Future, settled, enotconn, find, update, fail_all}
use s_rpc.Client.Futures.{release-notify_ready}
use s_rpc.Client.Table.{IsEntry, OneEntry, All-find, update_self, update_other}
use s_rpc.Client.Tracked.{Tracks, same_or, owned_others}

-- `invalidate_pending_futures` settles every future of the table, and leaves the others alone.
fail_all_lem :
    (es : List (ℤ × ℕ)) (fs : ℕ → Future)
    → OneEntry es
    → All (λ e. 0 < (fs e.1).refs) es
    → (gs : ℕ → Future) × (fail_all es fs ≡ done gs)
      × All (λ e. settled (gs e.1) ≡ true) es
      × ((b : ℕ) → All (λ e. e.1 ≢ b) es → gs b ≡ fs b)
      × ((b : ℕ) → (gs b).xid ≡ (fs b).xid)
unfolding fail_all
fail_all_lem [] fs u o = (fs, refl, tt, (λ b t. refl), (λ b. refl))
fail_all_lem ((k, a) ∷ es) fs u o =
    let (g, e, s, x) = release-notify_ready (record (fs a) { error_code = enotconn }) o.0 in
    let fs' = update fs a g in
    let (gs, rest, all, others, xids) = fail_all_lem es fs' u.1 (owned_others fs a g es u.0 o.1) in
    let here : gs a ≡ g = others a u.0 ∙ update_self fs a g in
    (
      gs,
      rw (e, rest) refl,
      (subst (λ (h : Future). settled h ≡ true) (sym here) s, all),
      (λ b ne. others b ne.1 ∙ update_other fs a g b (λ q. ne.0 (sym q))),
      (λ b. xids b ∙ elim (same_or b a) as (λ w. (update fs a g b).xid ≡ (fs b).xid) [
        | inl q ↦
            subst (λ (c : ℕ). (update fs a g c).xid ≡ (fs c).xid) (sym q)
              (ap (λ (h : Future). h.xid) (update_self fs a g) ∙ x)
        | inr ne ↦ ap (λ (h : Future). h.xid) (update_other fs a g b ne)
      ]),
    )

-- Whoever is not in the table is found by no search.
away_or_found :
    (n b : ℕ) (es : List (ℤ × ℕ)) (P : ℤ × ℕ → Type 0)
    → All (IsEntry n) es
    → All P es
    → All (λ e. e.1 ≢ b) es ⊎ P (pos b, b)
away_or_found n b [] P i p = inl tt
away_or_found n b ((k, a) ∷ es) P i p = elim (same_or a b) [
  | inl q ↦ inr (subst P (λ j. ((i.0.0 ∙ ap pos q) j, q j)) p.0)
  | inr ne ↦ elim (away_or_found n b es P i.1 p.1) [
    | inl away ↦ inl (ne, away)
    | inr found ↦ inr found
  ]
]

-- Every future that is still referenced is settled when the table has been emptied.
pub fail_all-settled :
    (n : ℕ) (fs : ℕ → Future) (es : List (ℤ × ℕ))
    → Tracks n fs es
    → (gs : ℕ → Future) × (fail_all es fs ≡ done gs)
      × Tracks n gs []
      × ((b : ℕ) → b < n → 0 < (gs b).refs → settled (gs b) ≡ true)
fail_all-settled n fs es t =
    let (gs, e, all, others, xids) = fail_all_lem es fs t.unique t.owned in
    let woken : (b : ℕ) → b < n → 0 < (gs b).refs → settled (gs b) ≡ true = λ b lt o.
      elim (Bool-cases (settled (gs b))) [
        | inl s ↦ s
        | inr s ↦ elim (away_or_found n b es (λ e. settled (gs e.1) ≡ true) t.entries all) [
          | inr found ↦ found
          | inl away ↦
              let same : gs b ≡ fs b = others b away in
              let there : find (pos b) es ≡ some b =
                t.kept b lt (subst (λ (g : Future). 0 < g.refs) same o)
                  (subst (λ (g : Future). settled g ≡ false) same s) in
              elim (All-find (λ e. e.1 ≢ b) n (pos b) es b t.entries away there refl) [ ]
        ]
      ] in
    (
      gs,
      e,
      record {
        named = λ b lt. xids b ∙ t.named b lt;
        entries = tt;
        unique = tt;
        owned = tt;
        kept = λ b lt o s. absurd (ground (arith, woken b lt o, s));
      },
      woken,
    )
