-- ===== src/Client/Tracked.antt =====
-- No future is lost: one that is still referenced, and neither ready nor timed out, stands in the
-- client's table, from which a reply or `close` will wake whoever waits for it.
use s_rpc.Base.{
  ℕ, suc, ◌<◌, ◌≡◌, ◌≢◌, ◌⊎◌, inl, inr, refl, sym, ◌∙◌, ap, Bool, true, false, some, List, [], ◌∷◌,
  arith, All, ◌==◌, Bool-cases,
}
use mathlib.Core.Path.{subst}
use s_rpc.Base.Int.{ℤ, pos, eq_ℤ}
use s_rpc.Client.{Future, settled, new_future, find, erase, update}
use s_rpc.Client.Table.{
  eq_ℤ-false, IsEntry, OneEntry, All-erase, OneEntry-erase, erase-gone, find-erase, eq_ℤ_refl,
  update_self, update_other,
}

-- Of the futures numbered below `n`, in the store `fs`, with the table `es`.
pub record Tracks (n : ℕ) (fs : ℕ → Future) (es : List (ℤ × ℕ)) : Type 0 where
  pub named : (a : ℕ) → a < n → (fs a).xid ≡ pos a
  pub entries : All (IsEntry n) es
  pub unique : OneEntry es
  pub owned : All (λ e. 0 < (fs e.1).refs) es
  pub kept : (a : ℕ) → a < n → 0 < (fs a).refs → settled (fs a) ≡ false → find (pos a) es ≡ some a

pub same_or : (b a : ℕ) → (b ≡ a) ⊎ (b ≢ a)
same_or b a = elim (Bool-cases (b == a)) [
  | inl e ↦ inl (ground arith)
  | inr e ↦ inr (λ q. absurd (ground arith))
]

pos_injective : (a b : ℕ) → pos a ≡ pos b → a ≡ b
pos_injective a b e = ground arith

-- Entries of other futures keep their references when future `a` changes.
pub owned_others :
    (fs : ℕ → Future) (a : ℕ) (f : Future) (es : List (ℤ × ℕ))
    → All (λ d. d.1 ≢ a) es
    → All (λ e. 0 < (fs e.1).refs) es
    → All (λ e. 0 < (update fs a f e.1).refs) es
owned_others fs a f [] ne o = tt
owned_others fs a f (e ∷ es) ne o = (
  subst (λ (g : Future). 0 < g.refs) (sym (update_other fs a f e.1 ne.0)) o.0,
  owned_others fs a f es ne.1 o.1,
)

pub owned_changed :
    (fs : ℕ → Future) (a : ℕ) (f : Future) (es : List (ℤ × ℕ))
    → (0 < (fs a).refs → 0 < f.refs)
    → All (λ e. 0 < (fs e.1).refs) es
    → All (λ e. 0 < (update fs a f e.1).refs) es
owned_changed fs a f [] k o = tt
owned_changed fs a f ((x, b) ∷ es) k o = elim (same_or b a) [
  | inl e ↦ (
    subst (λ (c : ℕ). 0 < (update fs a f c).refs) (sym e)
        (subst (λ (g : Future). 0 < g.refs) (sym (update_self fs a f))
          (k (subst (λ (c : ℕ). 0 < (fs c).refs) e o.0))),
    owned_changed fs a f es k o.1,
  )
  | inr ne ↦ (
    subst (λ (g : Future). 0 < g.refs) (sym (update_other fs a f b ne)) o.0,
    owned_changed fs a f es k o.1,
  )
]

named_update :
    (n : ℕ) (fs : ℕ → Future) (a : ℕ) (f : Future)
    → ((b : ℕ) → b < n → (fs b).xid ≡ pos b)
    → f.xid ≡ pos a
    → (b : ℕ) → b < n
    → (update fs a f b).xid ≡ pos b
named_update n fs a f h e b lt = elim (same_or b a) [
  | inl q ↦
      subst (λ (c : ℕ). (update fs a f c).xid ≡ pos c) (sym q)
        (ap (λ (g : Future). g.xid) (update_self fs a f) ∙ e)
  | inr ne ↦ ap (λ (g : Future). g.xid) (update_other fs a f b ne) ∙ h b lt
]

-- A future that is settled, or that nobody refers to, may leave the table.
pub Tracks-leave :
    (n : ℕ) (fs : ℕ → Future) (es : List (ℤ × ℕ)) (a : ℕ) (f : Future)
    → Tracks n fs es
    → f.xid ≡ pos a
    → (settled f ≡ true) ⊎ (f.refs ≡ 0)
    → Tracks n (update fs a f) (erase (pos a) es)
Tracks-leave n fs es a f t e gone = record {
  named = named_update n fs a f t.named e;
  entries = All-erase (IsEntry n) (pos a) es t.entries;
  unique = OneEntry-erase (pos a) es t.unique;
  owned =
      owned_others fs a f (erase (pos a) es) (erase-gone n a es t.entries)
        (All-erase (λ e. 0 < (fs e.1).refs) (pos a) es t.owned);
  kept = λ b lt o s. elim (same_or b a) [
    | inl q ↦
        let same : update fs a f b ≡ f = ap (update fs a f) q ∙ update_self fs a f in
        let o' : 0 < f.refs = subst (λ (g : Future). 0 < g.refs) same o in
        let s' : settled f ≡ false = subst (λ (g : Future). settled g ≡ false) same s in
        elim gone [
          | inl done_ ↦ absurd (ground (arith, s', done_))
          | inr dropped ↦ absurd (omega (arith, o', dropped))
        ]
    | inr ne ↦
        let same : update fs a f b ≡ fs b = update_other fs a f b ne in
        find-erase (pos b) (pos a) es (λ p. ne (pos_injective b a p))
        ∙ t.kept b lt (subst (λ (g : Future). 0 < g.refs) same o)
            (subst (λ (g : Future). settled g ≡ false) same s)
  ];
}

-- A change of a future in place, which leaves those of the table their references.
pub Tracks-change :
    (n : ℕ) (fs : ℕ → Future) (es : List (ℤ × ℕ)) (a : ℕ) (f : Future)
    → Tracks n fs es
    → f.xid ≡ (fs a).xid
    → a < n
    → All (λ e. 0 < (update fs a f e.1).refs) es
    → (0 < f.refs → settled f ≡ false → (0 < (fs a).refs) × (settled (fs a) ≡ false))
    → Tracks n (update fs a f) es
Tracks-change n fs es a f t e lt_a still was = record {
  named = named_update n fs a f t.named (e ∙ t.named a lt_a);
  entries = t.entries;
  unique = t.unique;
  owned = still;
  kept = λ b lt o s. elim (same_or b a) [
    | inl q ↦
        let same : update fs a f b ≡ f = ap (update fs a f) q ∙ update_self fs a f in
        let (o', s') =
          was (subst (λ (g : Future). 0 < g.refs) same o)
            (subst (λ (g : Future). settled g ≡ false) same s) in
        subst (λ (c : ℕ). find (pos c) es ≡ some c) (sym q) (t.kept a lt_a o' s')
    | inr ne ↦
        let same : update fs a f b ≡ fs b = update_other fs a f b ne in
        t.kept b lt (subst (λ (g : Future). 0 < g.refs) same o)
          (subst (λ (g : Future). settled g ≡ false) same s)
  ];
}

-- A new future goes into the table.
pub Tracks-enter :
    (n : ℕ) (fs : ℕ → Future) (es : List (ℤ × ℕ)) (callback : Bool)
    → Tracks n fs es
    → Tracks (suc n) (update fs n (new_future (pos n) callback)) ((pos n, n) ∷ erase (pos n) es)
unfolding find
Tracks-enter n fs es callback t =
    let f = new_future (pos n) callback in
    let away = erase-gone n n es t.entries in
    record {
      named = λ b lt. elim (same_or b n) [
        | inl q ↦
            subst (λ (c : ℕ). (update fs n f c).xid ≡ pos c) (sym q)
              (ap (λ (g : Future). g.xid) (update_self fs n f))
        | inr ne ↦
            ap (λ (g : Future). g.xid) (update_other fs n f b ne)
            ∙ t.named b (omega (arith, ne, lt))
      ];
      entries = (
        (refl, omega arith),
        wider (erase (pos n) es) (All-erase (IsEntry n) (pos n) es t.entries),
      );
      unique = (away, OneEntry-erase (pos n) es t.unique);
      owned = (
        subst (λ (g : Future). 0 < g.refs) (sym (update_self fs n f)) (omega arith),
        owned_others fs n f (erase (pos n) es) away
            (All-erase (λ e. 0 < (fs e.1).refs) (pos n) es t.owned),
      );
      kept = λ b lt o s. elim (same_or b n) [
        | inl q ↦
            subst (λ (c : ℕ). find (pos c) ((pos n, n) ∷ erase (pos n) es) ≡ some c) (sym q)
              (rw (eq_ℤ_refl (pos n)) refl)
        | inr ne ↦
            let same : update fs n f b ≡ fs b = update_other fs n f b ne in
            let other : eq_ℤ (pos n) (pos b) ≡ false =
              eq_ℤ-false (pos n) (pos b) (λ p. ne (sym (pos_injective n b p))) in
            rw other (
              find-erase (pos b) (pos n) es (λ p. ne (pos_injective b n p))
              ∙ t.kept b (omega (arith, ne, lt)) (subst (λ (g : Future). 0 < g.refs) same o)
                  (subst (λ (g : Future). settled g ≡ false) same s))
      ];
    }
  where
    wider : (ds : List (ℤ × ℕ)) → All (IsEntry n) ds → All (IsEntry (suc n)) ds
    wider [] i = tt
    wider (d ∷ ds) i = ((i.0.0, omega (arith, i.0.1)), wider ds i.1)
