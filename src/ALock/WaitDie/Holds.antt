-- ===== src/ALock/WaitDie/Holds.antt =====
-- What `status_` and `n_rlock_` of WaitDieALock say of its queue, and what each operation's step on
-- the queue makes of it.
use s_rpc.Base.{
  ℕ, zero, suc, ◌+◌, ◌<◌, ◌≡◌, refl, ap, ◌⊎◌, inl, inr, true, false, ◌&&◌, ◌||◌, List, [], ◌∷◌,
  ◌++◌, arith, if◌then◌else◌, ◌==◌,
}
use s_rpc.ALock.{
  rlock, wlock, LockStatus, free, wlocked, rlocked, wait, lock, Req, is_read, is_write, is_free,
  is_rlocked, count_type,
}
use s_rpc.ALock.WaitDie.Queue.{
  Waiting, Exact, Readers, Waiting-append, Waiting-remove, Readers-enqueue, Readers-read,
  Readers-leave, Readers-first_write, Readers-unlock, type-cases,
}

-- The front of the queue is the request that holds the write lock; the others wait.
abbrev pub Writer : List Req → Type 0
Writer [] = ⊥
Writer (r ∷ rs) = (r.type ≡ wlock) × (r.status ≡ lock) × Waiting rs

abbrev pub HoldsAs : LockStatus → ℕ → List Req → Type 0
HoldsAs free k rs = (rs ≡ []) × (k ≡ 0)
HoldsAs wlocked k rs = (k ≡ 0) × Writer rs
HoldsAs rlocked k rs = (0 < k) × Readers k rs

pub join_read :
    (st : LockStatus) (k : ℕ) (rs : List Req) (x : Req)
    → x.type ≡ rlock
    → x.status ≡ lock
    → (st ≡ free) ⊎ ((st ≡ rlocked) × (count_type is_write rs ≡ 0))
    → HoldsAs st k rs
    → HoldsAs (if k == 0 then rlocked else st) (k + 1) (rs ++ x ∷ [])
join_read free zero rs x t l c h = rw h.0 (omega arith, (t, l, (tt, tt)))
join_read free (suc k) rs x t l c h = absurd (ground arith)
join_read wlocked k rs x t l c h = absurd (ground arith)
join_read rlocked zero rs x t l c h = absurd (omega arith)
join_read rlocked (suc k) rs x t l c h =
    let next : suc k + 1 ≡ suc (suc k) = omega arith in
    let held : (suc k == 0) ≡ false = ground arith in
    rw (next, held) (omega arith, Readers-read (suc k) rs x t l (ground arith) h.1)

pub join_write :
    (st : LockStatus) (k : ℕ) (rs : List Req) (x : Req)
    → x.type ≡ wlock
    → x.status ≡ lock
    → st ≡ free
    → HoldsAs st k rs
    → HoldsAs wlocked k (rs ++ x ∷ [])
join_write free k rs x t l c h = rw h.0 (h.1, (t, l, tt))
join_write wlocked k rs x t l c h = absurd (ground arith)
join_write rlocked k rs x t l c h = absurd (ground arith)

-- A request that cannot have the lock at once waits behind the others.
pub join_wait :
    (st : LockStatus) (k : ℕ) (rs : List Req) (x : Req)
    → x.status ≡ wait
    → (is_free st || (is_rlocked st && is_read x.type && count_type is_write rs == 0)) ≡ false
    → HoldsAs st k rs
    → HoldsAs st k (rs ++ x ∷ [])
join_wait free k rs x w c h = absurd (ground arith)
join_wait wlocked k [] x w c h = elim h.1 [ ]
join_wait wlocked k (r ∷ rs) x w c h =
    (h.0, (h.1.0, h.1.1, Waiting-append rs (x ∷ []) h.1.2 (w, tt)))
join_wait rlocked k rs x w c h = (h.0, Readers-enqueue k rs x w later h.1)
  where
    later : (x.type ≡ wlock) ⊎ (0 < count_type is_write rs)
    later = elim (type-cases x.type) [
      | inl t ↦ let reads : is_read x.type ≡ true = ap is_read t in inr (ground arith)
      | inr t ↦ inl t
    ]

-- A waiting request leaves: a read request, or a write request that is not the first.
pub leave_wait :
    (st : LockStatus) (k : ℕ) (before : List Req) (it : Req) (after : List Req)
    → it.status ≡ wait
    → (it.type ≡ rlock) ⊎ (0 < count_type is_write before)
    → HoldsAs st k (before ++ it ∷ after)
    → HoldsAs st k (before ++ after)
leave_wait free k [] it after w c h = absurd (ground arith)
leave_wait free k (b ∷ before) it after w c h = absurd (ground arith)
leave_wait wlocked k [] it after w c h = absurd (ground arith)
leave_wait wlocked k (b ∷ before) it after w c h =
    let (_, rest, _) = Waiting-remove before it after h.1.2 in (h.0, (h.1.0, h.1.1, rest))
leave_wait rlocked k before it after w c h = (h.0, Readers-leave k before it after w c h.1)

-- The first write request that waits stands behind readers that hold the lock.
pub leave_first_write :
    (st : LockStatus) (k : ℕ) (before : List Req) (it : Req) (after : List Req)
    → it.status ≡ wait
    → count_type is_write before ≡ 0
    → HoldsAs st k (before ++ it ∷ after)
    → (st ≡ rlocked) × (0 < k) × Exact k before × Waiting after
unfolding count_type
leave_first_write free k [] it after w c h = absurd (ground arith)
leave_first_write free k (b ∷ before) it after w c h = absurd (ground arith)
leave_first_write wlocked k [] it after w c h = absurd (ground arith)
leave_first_write wlocked k (b ∷ before) it after w c h =
    let one : is_write b.type ≡ true = ap is_write h.1.0 in absurd (ground arith)
leave_first_write rlocked k before it after w c h =
    let (e, a) = Readers-first_write k before it after w c h.1 in (refl, h.0, e, a)

pub unlock_reader :
    (st : LockStatus) (k : ℕ) (before : List Req) (it : Req) (after : List Req)
    → it.status ≡ lock
    → it.type ≡ rlock
    → HoldsAs st k (before ++ it ∷ after)
    → (st ≡ rlocked)
      × Readers k (before ++ it ∷ after)
      × (j : ℕ) × (k ≡ suc j)
      × Readers j (before ++ after)
unlock_reader free k [] it after l t h = absurd (ground arith)
unlock_reader free k (b ∷ before) it after l t h = absurd (ground arith)
unlock_reader wlocked k [] it after l t h = absurd (ground arith)
unlock_reader wlocked k (b ∷ before) it after l t h =
    let (w, _, _) = Waiting-remove before it after h.1.2 in absurd (ground arith)
unlock_reader rlocked k before it after l t h =
    let (_, j, e, r) = Readers-unlock k before it after l h.1 in (refl, h.1, j, e, r)

pub unlock_writer :
    (st : LockStatus) (k : ℕ) (before : List Req) (it : Req) (after : List Req)
    → it.status ≡ lock
    → it.type ≡ wlock
    → HoldsAs st k (before ++ it ∷ after)
    → (st ≡ wlocked) × (k ≡ 0) × (before ≡ []) × Waiting after
unlock_writer free k [] it after l t h = absurd (ground arith)
unlock_writer free k (b ∷ before) it after l t h = absurd (ground arith)
unlock_writer wlocked k [] it after l t h = (refl, h.0, refl, h.1.2)
unlock_writer wlocked k (b ∷ before) it after l t h =
    let (w, _, _) = Waiting-remove before it after h.1.2 in absurd (ground arith)
unlock_writer rlocked k before it after l t h =
    let (r, _, _, _) = Readers-unlock k before it after l h.1 in absurd (ground arith)
