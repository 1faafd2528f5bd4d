-- ===== src/ALock/WaitDie/Queue.antt =====
-- The shapes that the request queue of WaitDieALock takes, and what an insertion or a removal makes
-- of them.
use s_rpc.Base.{
  ℕ, zero, Bool, suc, ◌+◌, ◌<◌, ◌≡◌, refl, ap, ◌⊎◌, inl, inr, true, false, List, [], ◌∷◌, ◌++◌,
  arith, length, All, some, ◌==◌, Bool-cases, Option-cases,
}
use s_rpc.Base.Outcome.{done}
use s_rpc.ALock.{
  LockType, rlock, wlock, wait, lock, Req, Call, is_read, is_write, is_wait, granted, grant_all,
  reads_ahead, find, count_type,
}

abbrev pub Waiting : List Req → Type 0
Waiting = All (λ r. r.status ≡ wait)

abbrev pub HeadWrite : List Req → Type 0
HeadWrite [] = Unit {0}
HeadWrite (r ∷ rs) = r.type ≡ wlock

-- `k` requests that hold read locks.
abbrev pub Exact : ℕ → List Req → Type 0
Exact zero [] = Unit {0}
Exact zero (r ∷ rs) = ⊥
Exact (suc k) [] = ⊥
Exact (suc k) (r ∷ rs) = (r.type ≡ rlock) × (r.status ≡ lock) × Exact k rs

-- `k` requests that hold read locks, and behind them only waiting ones, a write request first.
abbrev pub Readers : ℕ → List Req → Type 0
Readers zero rs = Waiting rs × HeadWrite rs
Readers (suc k) [] = ⊥
Readers (suc k) (r ∷ rs) = (r.type ≡ rlock) × (r.status ≡ lock) × Readers k rs

pub Waiting-append : (xs ys : List Req) → Waiting xs → Waiting ys → Waiting (xs ++ ys)
Waiting-append [] ys a b = b
Waiting-append (x ∷ xs) ys a b = (a.0, Waiting-append xs ys a.1 b)

pub Waiting-remove :
    (before : List Req) (it : Req) (after : List Req)
    → Waiting (before ++ it ∷ after)
    → (it.status ≡ wait) × Waiting (before ++ after) × Waiting after
Waiting-remove [] it after a = (a.0, a.1, a.1)
Waiting-remove (b ∷ before) it after a =
    let (x, y, z) = Waiting-remove before it after a.1 in (x, (a.0, y), z)

pub count-append :
    (p : LockType → _) (xs ys : List Req)
    → count_type p (xs ++ ys) ≡ count_type p xs + count_type p ys
unfolding count_type
count-append p [] ys = omega arith
count-append p (x ∷ xs) ys = omega (arith, count-append p xs ys)

-- A waiting request joins the queue: a write request, or any behind a write request.
pub Readers-enqueue :
    (k : ℕ) (rs : List Req) (x : Req)
    → x.status ≡ wait
    → (x.type ≡ wlock) ⊎ (0 < count_type is_write rs)
    → Readers k rs
    → Readers k (rs ++ x ∷ [])
unfolding count_type
Readers-enqueue zero [] x w h r = ground arith
Readers-enqueue zero (y ∷ rs) x w h r = (Waiting-append (y ∷ rs) (x ∷ []) r.0 (w, tt), r.1)
Readers-enqueue (suc k) [] x w h r = elim r [ ]
Readers-enqueue (suc k) (y ∷ rs) x w h r = (r.0, r.1, Readers-enqueue k rs x w (ground arith) r.2)

-- Where no write request is queued, one more reader joins.
pub Readers-read :
    (k : ℕ) (rs : List Req) (x : Req)
    → x.type ≡ rlock
    → x.status ≡ lock
    → count_type is_write rs ≡ 0
    → Readers k rs
    → Readers (suc k) (rs ++ x ∷ [])
unfolding count_type
Readers-read zero [] x t l n r = (t, l, (tt, tt))
Readers-read zero (y ∷ rs) x t l n r = absurd (ground arith)
Readers-read (suc k) [] x t l n r = elim r [ ]
Readers-read (suc k) (y ∷ rs) x t l n r = (r.0, r.1, Readers-read k rs x t l (ground arith) r.2)

-- A waiting request leaves: a read request, or a write request that is not the first.
pub Readers-leave :
    (k : ℕ) (before : List Req) (it : Req) (after : List Req)
    → it.status ≡ wait
    → (it.type ≡ rlock) ⊎ (0 < count_type is_write before)
    → Readers k (before ++ it ∷ after)
    → Readers k (before ++ after)
unfolding count_type
Readers-leave zero [] it after w h r = absurd (ground arith)
Readers-leave zero (b ∷ before) it after w h r =
    let (_, rest, _) = Waiting-remove (b ∷ before) it after r.0 in (rest, r.1)
Readers-leave (suc k) [] it after w h r = absurd (ground arith)
Readers-leave (suc k) (b ∷ before) it after w h r =
    (r.0, r.1, Readers-leave k before it after w (ground arith) r.2)

-- The first write request of the queue stands right behind the readers.
pub Readers-first_write :
    (k : ℕ) (before : List Req) (it : Req) (after : List Req)
    → it.status ≡ wait
    → count_type is_write before ≡ 0
    → Readers k (before ++ it ∷ after)
    → Exact k before × Waiting after
unfolding count_type
Readers-first_write zero [] it after w n r = (tt, r.0.1)
Readers-first_write zero (b ∷ before) it after w n r = absurd (ground arith)
Readers-first_write (suc k) [] it after w n r = absurd (ground arith)
Readers-first_write (suc k) (b ∷ before) it after w n r =
    let (e, a) = Readers-first_write k before it after w (ground arith) r.2 in ((r.0, r.1, e), a)

-- A reader leaves.
pub Readers-unlock :
    (k : ℕ) (before : List Req) (it : Req) (after : List Req)
    → it.status ≡ lock
    → Readers k (before ++ it ∷ after)
    → (it.type ≡ rlock) × (j : ℕ) × (k ≡ suc j) × Readers j (before ++ after)
Readers-unlock zero before it after l r =
    let (w, _, _) = Waiting-remove before it after r.0 in absurd (ground arith)
Readers-unlock (suc k) [] it after l r = (r.0, k, refl, r.2)
Readers-unlock (suc k) (b ∷ before) it after l r =
    let (t, j, e, q) = Readers-unlock k before it after l r.2 in (t, suc j, ap suc e, (r.0, r.1, q))

-- The last reader stands at the front of the queue.
pub Readers-last :
    (before : List Req) (it : Req) (after : List Req)
    → it.status ≡ lock
    → Readers 1 (before ++ it ∷ after)
    → (before ≡ []) × Waiting after × HeadWrite after
Readers-last [] it after l r = (refl, r.2.0, r.2.1)
Readers-last (b ∷ before) it after l r =
    let (w, _, _) = Waiting-remove before it after r.2.0 in absurd (ground arith)

-- Readers followed by more readers.
pub Exact-append :
    (k j : ℕ) (xs ys zs : List Req)
    → Exact k xs
    → Exact j ys
    → Waiting zs
    → HeadWrite zs
    → Readers (k + j) (xs ++ (ys ++ zs))
Exact-append zero zero [] [] zs e f w h = (w, h)
Exact-append zero (suc j) [] (y ∷ ys) zs e f w h =
    let n : 0 + suc j ≡ suc (0 + j) = omega arith in
    rw n (f.0, f.1, Exact-append zero j [] ys zs tt f.2 w h)
Exact-append zero (suc j) [] [] zs e f w h = elim f [ ]
Exact-append zero zero [] (y ∷ ys) zs e f w h = elim f [ ]
Exact-append zero j (x ∷ xs) ys zs e f w h = elim e [ ]
Exact-append (suc k) j [] ys zs e f w h = elim e [ ]
Exact-append (suc k) j (x ∷ xs) ys zs e f w h =
    let n : suc k + j ≡ suc (k + j) = omega arith in
    rw n (e.0, e.1, Exact-append k j xs ys zs e.2 f w h)

pub type-cases : (t : LockType) → (t ≡ rlock) ⊎ (t ≡ wlock)
type-cases rlock = inl refl
type-cases wlock = inr refl

-- The waiting read requests at the front of a list are granted, up to the first write request.
pub grant_ahead :
    (rs : List Req)
    → Waiting rs
    → let (reads, rest) = reads_ahead rs in
      (qs : List Req) × (calls : List Call) × (grant_all reads ≡ done (qs, calls))
      × Exact (length reads) qs
      × Waiting rest
      × HeadWrite rest
      × ((p : LockType → Bool) → count_type p (qs ++ rest) ≡ count_type p rs)
unfolding reads_ahead grant_all count_type
grant_ahead [] w = ([], [], refl, tt, tt, tt, λ p. refl)
grant_ahead (r ∷ rs) w = elim (type-cases r.type) [
  | inl t ↦
      let (qs, calls, e, x, v, h, n) = grant_ahead rs w.1 in
      let reads : is_read r.type ≡ true = ap is_read t in
      let waits : is_wait r.status ≡ true = ap is_wait w.0 in
      rw (reads, reads, waits, e)
        (
          record r { status = lock } ∷ qs,
          granted r.id ∷ calls,
          refl,
          (t, refl, x),
          v,
          h,
          λ p. rw (n p),
        )
  | inr t ↦
      let writes : is_read r.type ≡ false = ap is_read t in
      rw writes ([], [], refl, tt, w, t, λ p. refl)
]

pub find-split :
    (id : ℕ) (rs before : List Req) (it : Req) (after : List Req)
    → find id rs ≡ some (before, it, after)
    → rs ≡ before ++ it ∷ after
unfolding find
find-split id [] before it after e = cc
find-split id (r ∷ rs) before it after e = elim (Bool-cases (r.id == id)) [
  | inl t ↦ let f = rw t at e in ground arith
  | inr t ↦ elim (Option-cases (find id rs)) [
    | inl n ↦ let f = rw (t, n) at e in cc
    | inr ((b, i, a), n) ↦
        let f = rw (t, n) at e in let g = find-split id rs b i a n in ground arith
  ]
]
