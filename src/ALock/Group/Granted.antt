-- ===== src/ALock/Group/Granted.antt =====
-- What `insert` keeps in the map `locked_` of an ALockGroup, and what `abort_all_locked` makes of it.
use s_rpc.Base.{
  ℕ, ◌≡◌, ◌≢◌, ◌<◌, ◌⊎◌, inl, inr, refl, ◌∙◌, ap, List, [], ◌∷◌, arith, ltb, ◌==◌, Bool-cases,
}
use s_rpc.ALock.Group.{GroupCall, abort_call, insert, abort_all_locked}

abbrev pub Has : {A : Type 0} → A → List A → Type 0
Has a [] = ⊥
Has a (x ∷ xs) = (a ≡ x) ⊎ Has a xs

pub insert_self : (k v : ℕ) (m : List (ℕ × ℕ)) → Has (k, v) (insert k v m)
unfolding insert
insert_self k v [] = inl refl
insert_self k v (e ∷ m) = elim (Bool-cases (k == e.0)) [
  | inl same ↦ rw same (inl refl)
  | inr other ↦ elim (Bool-cases (ltb k e.0)) [
    | inl before ↦ rw (other, before) (inl refl)
    | inr behind ↦ rw (other, behind) (inr (insert_self k v m))
  ]
]

-- The entry of another lock stays.
pub insert_other :
    (k v l id : ℕ) (m : List (ℕ × ℕ)) → l ≢ k → Has (l, id) m → Has (l, id) (insert k v m)
unfolding insert
insert_other k v l id [] ne h = elim h [ ]
insert_other k v l id (e ∷ m) ne h = elim (Bool-cases (k == e.0)) [
  | inl same ↦ rw same (elim h [
    | inl q ↦
        let named : l ≡ e.0 = ap (λ (p : ℕ × ℕ). p.0) q in
        absurd (ne (named ∙ ground (arith, same)))
    | inr later ↦ inr later
  ])
  | inr other ↦ elim (Bool-cases (ltb k e.0)) [
    | inl before ↦ rw (other, before) (inr h)
    | inr behind ↦
        rw (other, behind)
          (elim h [ inl q ↦ inl q | inr later ↦ inr (insert_other k v l id m ne later) ])
  ]
]

pub insert_only :
    (k v : ℕ) (e : ℕ × ℕ) (m : List (ℕ × ℕ)) → Has e (insert k v m) → (e ≡ (k, v)) ⊎ Has e m
unfolding insert
insert_only k v e [] h = h
insert_only k v e (d ∷ m) h = elim (Bool-cases (k == d.0)) [
  | inl same ↦ elim (rw same at h) [ inl q ↦ inl q | inr later ↦ inr (inr later) ]
  | inr other ↦ elim (Bool-cases (ltb k d.0)) [
    | inl before ↦ rw (other, before) at h
    | inr behind ↦ elim (rw (other, behind) at h) [
      | inl q ↦ inr (inl q)
      | inr later ↦ elim (insert_only k v e m later) [ inl q ↦ inl q | inr there ↦ inr (inr there) ]
    ]
  ]
]

-- Every entry with an id is aborted,
pub abort_all_locked-each :
    (l id : ℕ) (m : List (ℕ × ℕ))
    → 0 < id
    → Has (l, id) m
    → Has (abort_call l id) (abort_all_locked m)
unfolding abort_all_locked
abort_all_locked-each l id [] positive h = elim h [ ]
abort_all_locked-each l id (e ∷ m) positive h = elim (Bool-cases (e.1 == 0)) [
  | inl zero_id ↦ rw zero_id (elim h [
    | inl q ↦
        let same : id ≡ e.1 = ap (λ (p : ℕ × ℕ). p.1) q in
        absurd (ground (arith, positive, same, zero_id))
    | inr later ↦ abort_all_locked-each l id m positive later
  ])
  | inr held ↦ rw held (elim h [
    | inl q ↦ inl (ap (λ (p : ℕ × ℕ). abort_call p.0 p.1) q)
    | inr later ↦ inr (abort_all_locked-each l id m positive later)
  ])
]

-- and nothing else is.
pub abort_all_locked-only :
    (c : GroupCall) (m : List (ℕ × ℕ))
    → Has c (abort_all_locked m)
    → (l : ℕ) × (id : ℕ) × (c ≡ abort_call l id) × (0 < id) × Has (l, id) m
unfolding abort_all_locked
abort_all_locked-only c [] h = elim h [ ]
abort_all_locked-only c (e ∷ m) h = elim (Bool-cases (e.1 == 0)) [
  | inl zero_id ↦
      let (l, id, q, positive, there) = abort_all_locked-only c m (rw zero_id at h) in
      (l, id, q, positive, inr there)
  | inr held ↦ elim (rw held at h) [
    | inl q ↦ (e.0, e.1, q, ground (arith, held), inl refl)
    | inr later ↦
        let (l, id, q, positive, there) = abort_all_locked-only c m later in
        (l, id, q, positive, inr there)
  ]
]
