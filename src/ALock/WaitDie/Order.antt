-- ===== src/ALock/WaitDie/Order.antt =====
-- The order of priorities in the queue of WaitDieALock.
use s_rpc.Base.{
  ◌≡◌, ap, ◌⊎◌, inl, inr, Bool, true, false, ◌||◌, List, [], ◌∷◌, ◌++◌, arith, Bool-cases,
}
use s_rpc.Base.Int.{ℤ, leb_ℤ, ltb_ℤ}
use s_rpc.Base.Outcome.{Outcome, done, fault}
use s_rpc.ALock.{Req, is_write}
use s_rpc.ALock.WaitDie.{WdStatus, wd_wait, wd_die, write_wait_die, read_wait_die, wait_die}
use s_rpc.ALock.WaitDie.Queue.{type-cases}
use mathlib.Core.List.{reverse, reverse-append}

-- Two requests conflict, and the one behind is older.
abbrev pub conflict : Req → Req → Bool
conflict y x = is_write x.type || is_write y.type

-- A queue from its back: each request is older than those ahead that it conflicts with.
abbrev pub Older : Req → List Req → Type 0
Older y [] = Unit {0}
Older y (x ∷ xs) = ((conflict y x ≡ false) ⊎ (ltb_ℤ y.priority x.priority ≡ true)) × Older y xs

abbrev pub Ordered : List Req → Type 0
Ordered [] = Unit {0}
Ordered (y ∷ xs) = Older y xs × Ordered xs

older_trans : (p q r : ℤ) → ltb_ℤ p q ≡ true → ltb_ℤ q r ≡ true → ltb_ℤ p r ≡ true
older_trans p q r a b = ground arith

not_leb : (p q : ℤ) → leb_ℤ q p ≡ false → ltb_ℤ p q ≡ true
not_leb p q h = ground arith

-- What is older than a write request is older than all that the write request waits for.
Older-is_write :
    (x y : Req) (xs : List Req)
    → is_write y.type ≡ true
    → ltb_ℤ x.priority y.priority ≡ true
    → Older y xs
    → Older x xs
Older-is_write x y [] w p h = tt
Older-is_write x y (z ∷ xs) w p h =
    let q : ltb_ℤ y.priority z.priority ≡ true = ground arith in
    (inr (older_trans x.priority y.priority z.priority p q), Older-is_write x y xs w p h.1)

-- A write request that waits is older than every request ahead of it.
write_wait_die-Older :
    (x : Req) (ys : List Req) → Ordered ys → write_wait_die x.priority ys ≡ wd_wait → Older x ys
unfolding write_wait_die
write_wait_die-Older x [] o e = tt
write_wait_die-Older x (y ∷ ys) o e = elim (Bool-cases (leb_ℤ y.priority x.priority)) [
  | inl t ↦ let f = rw t at e in absurd (ground arith)
  | inr t ↦
      let p = not_leb x.priority y.priority t in
      elim (Bool-cases (is_write y.type)) [
        | inl w ↦ (inr p, Older-is_write x y ys w p o.0)
        | inr w ↦ (inr p, write_wait_die-Older x ys o.1 (rw (t, w) at e))
      ]
]

-- A read request that waits is older than every write request ahead of it.
read_wait_die-Older :
    (x : Req) (ys : List Req)
    → is_write x.type ≡ false
    → Ordered ys
    → read_wait_die x.priority ys ≡ done wd_wait
    → Older x ys
unfolding read_wait_die
read_wait_die-Older x [] r o e = tt
read_wait_die-Older x (y ∷ ys) r o e = elim (Bool-cases (is_write y.type)) [
  | inl w ↦
      let f = rw w at e in
      let p : ltb_ℤ x.priority y.priority ≡ true = elim (Bool-cases (ltb_ℤ x.priority y.priority)) [
        | inl t ↦ t
        | inr t ↦ let g = rw t at f in absurd (ground arith)
      ] in
      (inr p, Older-is_write x y ys w p o.0)
  | inr w ↦ (inl (rw (w, r)), read_wait_die-Older x ys r o.1 (rw w at e))
]

abbrev decision : Outcome WdStatus → WdStatus
decision (done w) = w
decision (fault e) = wd_die

-- Where each request of a queue is older than those ahead that it conflicts with, a request that
-- `wait_die` lets wait joins the back of the queue in that order: it waits only for younger ones.
pub wait_die-Ordered :
    (x : Req) (requests : List Req)
    → Ordered (reverse requests)
    → wait_die x.type x.priority requests ≡ done wd_wait
    → Ordered (reverse (requests ++ x ∷ []))
unfolding wait_die
wait_die-Ordered x requests o e = rw (reverse-append requests (x ∷ [])) (elim (type-cases x.type) [
  | inl t ↦
      let r : is_write x.type ≡ false = ap is_write t in
      (read_wait_die-Older x (reverse requests) r o (rw t at e), o)
  | inr t ↦ (write_wait_die-Older x (reverse requests) o (ap decision (rw t at e)), o)
])

-- The queue stays in order when a request leaves it.
Older-remove :
    (y : Req) (xs : List Req) (it : Req) (ys : List Req)
    → Older y (xs ++ it ∷ ys)
    → Older y (xs ++ ys)
Older-remove y [] it ys h = h.1
Older-remove y (x ∷ xs) it ys h = (h.0, Older-remove y xs it ys h.1)

pub Ordered-remove :
    (xs : List Req) (it : Req) (ys : List Req) → Ordered (xs ++ it ∷ ys) → Ordered (xs ++ ys)
Ordered-remove [] it ys h = h.1
Ordered-remove (x ∷ xs) it ys h = (Older-remove x xs it ys h.0, Ordered-remove xs it ys h.1)
