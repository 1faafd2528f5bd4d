-- ===== src/ALock/Timeout/First.antt =====
-- A free TimeoutALock goes to the first request that waits, and to the readers behind it.
use s_rpc.Base.{◌+◌, ◌≡◌, refl, ap, ◌∙◌, inl, inr, true, false, List, [], ◌∷◌, arith, Bool-cases}
use s_rpc.Alarm.{Alarm, remove}
use s_rpc.ALock.{rlock, wlock, free, wlocked, rlocked, is_read, is_write, is_rlocked, Lock}
use s_rpc.ALock.WaitDie.Queue.{type-cases}
use s_rpc.ALock.Timeout.{locked, TimedReq, is_waiting, taken, lock_reads, lock_first}
use s_rpc.ALock.Timeout.Held.{
  Fits, count, gone, is_locked, lock_reads_lem, reads_held, rlocked_lem, waiting_not_held, waits,
  wlocked_lem, writes_held,
}

-- A request that neither holds nor waits changes nothing.
Fits-idle :
    (l : Lock) (r : TimedReq) (rs : List TimedReq)
    → reads_held r ≡ false
    → writes_held r ≡ false
    → waits r ≡ false
    → gone r ≡ false
    → Fits l rs
    → Fits l (r ∷ rs)
unfolding count
Fits-idle l r rs a b c d v =
    let w : count writes_held (r ∷ rs) ≡ count writes_held rs = ground arith in
    let q : count waits (r ∷ rs) ≡ count waits rs = ground arith in
    record { held = rw (w, q) v.held; readers = ground arith; queued = ground arith }

idle_reads :
    (r : TimedReq) (rs : List TimedReq) → count reads_held (r ∷ rs) ≡ 0 → reads_held r ≡ false
unfolding count
idle_reads r rs h = ground arith

idle_writes :
    (r : TimedReq) (rs : List TimedReq) → count writes_held (r ∷ rs) ≡ 0 → writes_held r ≡ false
unfolding count
idle_writes r rs h = ground arith

queued_first : (r : TimedReq) (rs : List TimedReq) → count gone (r ∷ rs) ≡ 0 → gone r ≡ false
unfolding count
queued_first r rs h = ground arith

-- The first request of the queue waits for a free lock that nobody holds.
abbrev Takes : Lock → TimedReq → List TimedReq → Type 0
Takes l r rs =
    (is_waiting r.status ≡ true)
    × (l.n_rlock ≡ 0)
    × (count reads_held (r ∷ rs) ≡ 0)
    × (count writes_held (r ∷ rs) ≡ 0)
    × (count gone (r ∷ rs) ≡ 0)

-- It reads: those that wait to read behind it take the lock with it.
read_first :
    (l : Lock) (alarm : Alarm) (r : TimedReq) (rs : List TimedReq)
    → Takes l r rs
    → r.type ≡ rlock
    → let x = lock_first l alarm (r ∷ rs) in Fits x.0 x.2
unfolding lock_first count
read_first l alarm r rs (t, n, rd, w, g) y =
    let not_held : is_locked r.status ≡ false = waiting_not_held r.status t in
    let reads : is_read r.type ≡ true = ap is_read y in
    let writes : is_write r.type ≡ false = ap is_write y in
    let is : is_rlocked (taken r.type l).status ≡ true =
      ap (λ u. is_rlocked (taken u l).status) y in
    let st : (taken r.type l).status ≡ rlocked = ap (λ u. (taken u l).status) y in
    let one : (taken r.type l).n_rlock ≡ l.n_rlock + 1 = ap (λ u. (taken u l).n_rlock) y in
    let next = lock_reads (taken r.type l) (remove r.alarm_id alarm).0 rs in
    let (a, b, c, d, e) =
      lock_reads_lem (taken r.type l) (remove r.alarm_id alarm).0 rs (ground arith)
        (ground arith) in
    let w' : count writes_held (record r { status = locked } ∷ next.2) ≡ 0 = ground arith in
    let n' : next.0.n_rlock ≡ count reads_held (record r { status = locked } ∷ next.2) =
      ground arith in
    let g' : count gone (record r { status = locked } ∷ next.2) ≡ 0 = ground arith in
    rw (t, is)
      record {
        held = rlocked_lem next.0.status _ _ _ (a ∙ st) (omega arith) w';
        readers = n';
        queued = g';
      }

-- It writes: it takes the lock alone.
write_first :
    (l : Lock) (alarm : Alarm) (r : TimedReq) (rs : List TimedReq)
    → Takes l r rs
    → r.type ≡ wlock
    → let x = lock_first l alarm (r ∷ rs) in Fits x.0 x.2
unfolding lock_first count
write_first l alarm r rs (t, n, rd, w, g) y =
    let not_held : is_locked r.status ≡ false = waiting_not_held r.status t in
    let reads : is_read r.type ≡ false = ap is_read y in
    let writes : is_write r.type ≡ true = ap is_write y in
    let is : is_rlocked (taken r.type l).status ≡ false =
      ap (λ u. is_rlocked (taken u l).status) y in
    let st : (taken r.type l).status ≡ wlocked = ap (λ u. (taken u l).status) y in
    let same : (taken r.type l).n_rlock ≡ l.n_rlock = ap (λ u. (taken u l).n_rlock) y in
    let w' : count writes_held (record r { status = locked } ∷ rs) ≡ 1 = ground arith in
    let n' : (taken r.type l).n_rlock ≡ count reads_held (record r { status = locked } ∷ rs) =
      ground arith in
    let g' : count gone (record r { status = locked } ∷ rs) ≡ 0 = ground arith in
    rw (t, is)
      record {
        held = wlocked_lem (taken r.type l).status _ _ _ st (same ∙ n) w';
        readers = n';
        queued = g';
      }

-- The first request that waits takes a free lock, and nobody waits for one that stays free.
pub lock_first_lem :
    (l : Lock) (alarm : Alarm) (rs : List TimedReq)
    → l.status ≡ free
    → l.n_rlock ≡ 0
    → count reads_held rs ≡ 0
    → count writes_held rs ≡ 0
    → count gone rs ≡ 0
    → let r = lock_first l alarm rs in Fits r.0 r.2
unfolding lock_first count
lock_first_lem l alarm [] s n rd w g = record {
  held = rw s (n, refl, refl);
  readers = n;
  queued = refl;
}
lock_first_lem l alarm (r ∷ rs) s n rd w g = elim (Bool-cases (is_waiting r.status)) [
  | inl t ↦ elim (type-cases r.type) [
    | inl y ↦ read_first l alarm r rs (t, n, rd, w, g) y
    | inr y ↦ write_first l alarm r rs (t, n, rd, w, g) y
  ]
  | inr t ↦
      let ih = lock_first_lem l alarm rs s n (ground arith) (ground arith) (ground arith) in
      rw t (
        Fits-idle (lock_first l alarm rs).0 r (lock_first l alarm rs).2 (idle_reads r rs rd)
          (idle_writes r rs w) t (queued_first r rs g) ih)
]
