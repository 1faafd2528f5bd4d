-- ===== src/ALock/WaitDie/Kept.antt =====
-- `abort` takes one request out of the queue of WaitDieALock and leaves the others in their order.
use s_rpc.Base.{
  ℕ, ◌≡◌, refl, sym, ap, ◌∙◌, inl, inr, ◌&&◌, List, [], ◌∷◌, ◌++◌, ◌==◌, if◌then◌else◌, if-cases,
  Bool-cases, append_assoc, length, Option, none, some,
}
use s_rpc.Base.Outcome.{
  Outcome, done, fault, ◌>>=◌, verify, After, After-bind, After-then, Succeeds, Succeeds-After,
}
use s_rpc.ALock.{
  wait, Req, Call, is_read, is_write, is_wait, Lock, write_acquire, read_acquire_all, grant_all,
  reads_ahead, find, decrement, count_type, is_rlocked,
}
use s_rpc.ALock.WaitDie.{
  WaitDie, pass_on, abort_waiting, unlock_read, unlock_write, abort_held, abort,
}
use s_rpc.ALock.WaitDie.Queue.{find-split}
use s_rpc.ALock.WaitDie.Invariant.{IsValid}
use s_rpc.ALock.WaitDie.Release.{abort-IsValid}
use s_rpc.ALock.WaitDie.Order.{Older, Ordered, Ordered-remove}
use mathlib.Core.List.{reverse, reverse-cons, reverse-append}

-- A request without its status.
abbrev pub plain : Req → Req
plain r = record r { status = wait }

abbrev pub plains : List Req → List Req
plains [] = []
plains (r ∷ rs) = plain r ∷ plains rs

plains-append : (xs ys : List Req) → plains (xs ++ ys) ≡ plains xs ++ plains ys
plains-append [] ys = refl
plains-append (x ∷ xs) ys = ap (◌∷◌ (plain x)) (plains-append xs ys)

plains-reverse : (xs : List Req) → plains (reverse xs) ≡ reverse (plains xs)
plains-reverse [] = refl
plains-reverse (x ∷ xs) =
    ap plains (reverse-cons x xs)
    ∙ plains-append (reverse xs) (x ∷ [])
    ∙ ap (λ l. l ++ plain x ∷ []) (plains-reverse xs)
    ∙ sym (reverse-cons (plain x) (plains xs))

Older-plain : (y : Req) (xs : List Req) → Older y xs → Older (plain y) (plains xs)
Older-plain y [] h = tt
Older-plain y (x ∷ xs) h = (h.0, Older-plain y xs h.1)

Ordered-plains : (xs : List Req) → Ordered xs → Ordered (plains xs)
Ordered-plains [] h = tt
Ordered-plains (x ∷ xs) h = (Older-plain x xs h.0, Ordered-plains xs h.1)

plain-Older : (y : Req) (xs : List Req) → Older (plain y) (plains xs) → Older y xs
plain-Older y [] h = tt
plain-Older y (x ∷ xs) h = (h.0, plain-Older y xs h.1)

plains-Ordered : (xs : List Req) → Ordered (plains xs) → Ordered xs
plains-Ordered [] h = tt
plains-Ordered (x ∷ xs) h = (plain-Older x xs h.0, plains-Ordered xs h.1)

-- The order does not look at the statuses.
pub same_order :
    (xs ys : List Req) → plains xs ≡ plains ys → Ordered (reverse ys) → Ordered (reverse xs)
same_order xs ys e h =
    let q : plains (reverse ys) ≡ plains (reverse xs) =
      plains-reverse ys ∙ ap reverse (sym e) ∙ sym (plains-reverse xs) in
    plains-Ordered (reverse xs) (rw q at (Ordered-plains (reverse ys) h))

grant_all_lem : (rs : List Req) → After (λ r. plains r.0 ≡ plains rs) (grant_all rs)
unfolding grant_all
grant_all_lem [] = refl
grant_all_lem (r ∷ rs) =
    After-then _ (verify (is_read r.type && is_wait r.status)) _
      (λ u. After-bind _ _ (grant_all rs) _ (grant_all_lem rs) (λ q e. ap (◌∷◌ (plain r)) e))

read_acquire_all_lem :
    (l : Lock) (rs : List Req) → After (λ r. plains r.1 ≡ plains rs) (read_acquire_all l rs)
unfolding read_acquire_all
read_acquire_all_lem l [] = refl
read_acquire_all_lem l (r ∷ rs) =
    After-bind _ _ (grant_all (r ∷ rs)) _ (grant_all_lem (r ∷ rs)) (λ q e. e)

pub write_acquire_lem : (l : Lock) (r : Req) → After (λ a. plain a.1 ≡ plain r) (write_acquire l r)
unfolding write_acquire
write_acquire_lem l r = After-then _ (verify (is_write r.type && is_wait r.status)) _ (λ u. refl)

reads_ahead-append : (rs : List Req) → (reads_ahead rs).0 ++ (reads_ahead rs).1 ≡ rs
unfolding reads_ahead
reads_ahead-append [] = refl
reads_ahead-append (r ∷ rs) = elim (Bool-cases (is_read r.type)) [
  | inl t ↦ rw t (ap (◌∷◌ r) (reads_ahead-append rs))
  | inr t ↦ rw t
]

-- Read requests are granted in the queue.
rejoin :
    (before qs rs : List Req)
    → plains qs ≡ plains (reads_ahead rs).0
    → plains (before ++ (qs ++ (reads_ahead rs).1)) ≡ plains (before ++ rs)
rejoin before qs rs e =
    plains-append before (qs ++ (reads_ahead rs).1)
    ∙ ap (◌++◌ (plains before)) (
        plains-append qs (reads_ahead rs).1
        ∙ ap (λ l. l ++ plains (reads_ahead rs).1) e
        ∙ sym (plains-append (reads_ahead rs).0 (reads_ahead rs).1)
        ∙ ap plains (reads_ahead-append rs))
    ∙ sym (plains-append before rs)

pub rejoin_one :
    (before : List Req) (x r : Req) (rest : List Req)
    → plain x ≡ plain r
    → plains (before ++ x ∷ rest) ≡ plains (before ++ r ∷ rest)
rejoin_one before x r rest e =
    plains-append before (x ∷ rest)
    ∙ ap (λ u. plains before ++ u ∷ plains rest) e
    ∙ sym (plains-append before (r ∷ rest))

abbrev Leaves : List Req → Outcome (WaitDie × List Call) → Type 0
Leaves rs m = After (λ r. plains r.0.requests ≡ plains rs) m

pass_on_lem :
    (t : WaitDie) (before : List Req) (it : Req) (after : List Req)
    → Leaves (before ++ after) (pass_on t before it after)
unfolding pass_on
pass_on_lem t before it after = After-then _ (verify (is_rlocked t.held.status)) _ (λ u.
    After-bind _ _ (read_acquire_all t.held (reads_ahead after).0) _
      (read_acquire_all_lem t.held (reads_ahead after).0) (λ r e. rejoin before r.1 after e))

abort_waiting_lem :
    (s : WaitDie) (before : List Req) (it : Req) (after : List Req)
    → Leaves (before ++ after) (abort_waiting s before it after)
unfolding abort_waiting
abort_waiting_lem s before it after =
    if-cases (Leaves (before ++ after)) (is_read it.type) _ _
      (λ t. After-then _ (decrement s.n_r_in_queue) _ (λ n. refl))
      (λ t. After-then _ (decrement s.n_w_in_queue) _ (λ n.
        if-cases (Leaves (before ++ after)) (count_type is_write before == 0) _ _
          (λ z.
            pass_on_lem (record s { requests = before ++ after; n_w_in_queue = n }) before it after)
          (λ z. refl)))

write_next :
    (t : WaitDie) (before : List Req) (r : Req) (rest : List Req)
    → Leaves (before ++ r ∷ rest) (
        write_acquire t.held r >>= λ a.
        done (record t { held = a.0; requests = before ++ a.1 ∷ rest }, a.2))
write_next t before r rest =
    After-bind _ _ (write_acquire t.held r) _ (write_acquire_lem t.held r)
      (λ a e. rejoin_one before a.1 r rest e)

unlock_read_lem :
    (t : WaitDie) (before after : List Req)
    → t.requests ≡ before ++ after
    → Leaves (before ++ after) (unlock_read t before after)
unfolding unlock_read
unlock_read_lem t before [] e = After-then _ (verify (length before == 0)) _ (λ u. ap plains e)
unlock_read_lem t before (r ∷ rest) e = write_next t before r rest

unlock_write_lem :
    (t : WaitDie) (before after : List Req)
    → t.requests ≡ before ++ after
    → Leaves (before ++ after) (unlock_write t before after)
unfolding unlock_write
unlock_write_lem t before [] e = After-then _ (verify (length before == 0)) _ (λ u. ap plains e)
unlock_write_lem t before (r ∷ rest) e =
    if-cases (Leaves (before ++ r ∷ rest)) (is_write r.type) _ _ (λ y. write_next t before r rest)
      (λ y.
        After-bind _ _ (read_acquire_all t.held (reads_ahead (r ∷ rest)).0) _
          (read_acquire_all_lem t.held (reads_ahead (r ∷ rest)).0)
          (λ a d.
            After-then _ (verify (is_rlocked a.0.status)) _ (λ u. rejoin before a.1 (r ∷ rest) d)))

abort_held_lem :
    (s : WaitDie) (before : List Req) (it : Req) (after : List Req)
    → Leaves (before ++ after) (abort_held s before it after)
unfolding abort_held
abort_held_lem s before it after =
    if-cases (Leaves (before ++ after)) (is_read it.type) _ _
      (λ t. After-then _ (decrement s.n_r_in_queue) _ (λ n.
        After-then _ (decrement s.held.n_rlock) _ (λ k.
          if-cases (Leaves (before ++ after)) (k == 0) _ _
            (λ z. unlock_read_lem _ before after refl) (λ z. refl))))
      (λ t. After-then _ (decrement s.n_w_in_queue) _ (λ n. unlock_write_lem _ before after refl))

reverse_middle :
    (before : List Req) (it : Req) (after : List Req)
    → reverse (before ++ it ∷ after) ≡ reverse after ++ it ∷ reverse before
reverse_middle before it after =
    reverse-append before (it ∷ after)
    ∙ ap (λ l. l ++ reverse before) (reverse-cons it after)
    ∙ append_assoc (reverse after) (it ∷ []) (reverse before)

out :
    (before : List Req) (it : Req) (after : List Req)
    → Ordered (reverse (before ++ it ∷ after))
    → Ordered (reverse (before ++ after))
out before it after h =
    rw (reverse-append before after) (
      Ordered-remove (reverse after) it (reverse before) (rw (reverse_middle before it after) at h))

in_order :
    (id : ℕ) (s : WaitDie)
    → Ordered (reverse s.requests)
    → After (λ r. Ordered (reverse r.0.requests)) (abort id s)
unfolding abort
in_order id s o =
    if-cases (After (λ (r : WaitDie × List Call). Ordered (reverse r.0.requests))) s.done_ _ _
      (λ d. o) (λ d. act (find id s.requests) refl)
  where
    InOrder : Outcome (WaitDie × List Call) → Type 0
    InOrder m = After (λ r. Ordered (reverse r.0.requests)) m

    stays :
        (rs : List Req) (m : Outcome (WaitDie × List Call))
        → Ordered (reverse rs)
        → Leaves rs m
        → InOrder m
    stays rs (done r) h e = same_order r.0.requests rs e h
    stays rs (fault e') h e = tt

    act :
        (o' : Option (List Req × Req × List Req))
        → find id s.requests ≡ o'
        → InOrder (elim o' as (λ u. Outcome (WaitDie × List Call)) [
          | none ↦ done (s, [])
          | some (before, it, after) ↦
              if is_wait it.status
              then abort_waiting s before it after
              else abort_held s before it after
        ])
    act none e = o
    act (some (before, it, after)) e =
        let split = find-split id s.requests before it after e in
        stays (before ++ after) _ (out before it after (rw split at o)) (
          if-cases (Leaves (before ++ after)) (is_wait it.status) _ _
            (λ w. abort_waiting_lem s before it after) (λ w. abort_held_lem s before it after))

-- On a well-formed lock where each request of the queue is older than those ahead that it conflicts
-- with, `abort` returns, and leaves such a lock.
pub abort-Ordered :
    (id : ℕ) (s : WaitDie)
    → IsValid s
    → Ordered (reverse s.requests)
    → Succeeds (λ r. IsValid r.0 × Ordered (reverse r.0.requests)) (abort id s)
abort-Ordered id s v o = Succeeds-After _ _ (abort id s) (abort-IsValid id s v) (in_order id s o)
