-- ===== src/Alarm/Waiting.antt =====
-- The alarms that wait are those that were added and neither removed nor due.
use s_rpc.Base.{
  ℕ, suc, ◌<◌, ◌≤◌, inl, inr, ◌≡◌, refl, true, false, List, [], ◌∷◌, ◌++◌, arith, All, ltb, ◌==◌,
  Bool-cases, ap, none, some,
}
use s_rpc.Alarm.{Entry, Alarm, add, erase, remove, exe_next, run_from, run}

-- An id that waits has been given out.
abbrev pub IsValid : Alarm → Type 0
IsValid a = All (λ e. e.key < a.next_id) a.waiting

raise : (n : ℕ) (es : List Entry) → All (λ e. e.key < n) es → All (λ e. e.key < suc n) es
raise n [] v = tt
raise n (e ∷ es) v = (omega arith, raise n es v.1)

All-append : (P : Entry → Type 0) (xs ys : List Entry) → All P xs → All P ys → All P (xs ++ ys)
All-append P [] ys a b = b
All-append P (x ∷ xs) ys a b = (a.0, All-append P xs ys a.1 b)

add-IsValid : (time func : ℕ) (a : Alarm) → IsValid a → IsValid (add time func a).0
unfolding add
add-IsValid time func a v = All-append _ a.waiting _ (raise a.next_id a.waiting v) (omega arith, tt)

erase_last :
    (n : ℕ) (es : List Entry) (x : Entry)
    → x.key ≡ n
    → All (λ e. e.key < n) es
    → erase n (es ++ x ∷ []) ≡ (es, 1)
unfolding erase
erase_last n [] x k v = let same : (x.key == n) ≡ true = ground arith in rw same
erase_last n (e ∷ es) x k v =
    let other : (e.key == n) ≡ false = ground arith in rw (erase_last n es x k v.1, other)

-- On a well-formed alarm, an alarm that is removed again is found, and leaves no trace but its id.
remove-add :
    (time func : ℕ) (a : Alarm)
    → IsValid a
    → let (b, id) = add time func a in remove id b ≡ (record a { next_id = suc a.next_id }, true)
unfolding add remove
remove-add time func a v =
    rw
      (erase_last a.next_id a.waiting (record { key = a.next_id; time = time; func = func }) refl v)

-- A run at a time makes the calls of a first part of the queue, every one of them due, in order, and
-- leaves the rest, whose first alarm is not due.
abbrev pub calls_of : List Entry → List ℕ
calls_of [] = []
calls_of (e ∷ es) = e.func ∷ calls_of es

abbrev pub NotDue : ℕ → List Entry → Type 0
NotDue now [] = Unit {0}
NotDue now (e ∷ es) = now ≤ e.time

exe_next_due :
    (now : ℕ) (e : Entry) (es : List Entry)
    → ltb e.time now ≡ true
    → exe_next now (e ∷ es) ≡ (es, some e.func)
unfolding exe_next
exe_next_due now e es t = rw t

exe_next_early :
    (now : ℕ) (e : Entry) (es : List Entry)
    → ltb e.time now ≡ false
    → exe_next now (e ∷ es) ≡ (e ∷ es, none)
unfolding exe_next
exe_next_early now e es t = rw t

run_from_lem :
    (now i : ℕ) (es : List Entry)
    → (due : List Entry) × (rest : List Entry) × (es ≡ due ++ rest)
      × (run_from (λ j. now) i es ≡ (rest, calls_of due))
      × All (λ e. e.time < now) due
      × NotDue now rest
unfolding run_from
run_from_lem now i [] = ([], [], refl, refl, tt, tt)
run_from_lem now i (e ∷ es) = elim (Bool-cases (ltb e.time now)) [
  | inl t ↦
      let (due, rest, s, r, d, n) = run_from_lem now (suc i) es in
      rw (exe_next_due now e es t, r) (e ∷ due, rest, ap (◌∷◌ e) s, refl, (ground arith, d), n)
  | inr t ↦ rw (exe_next_early now e es t) ([], e ∷ es, refl, refl, tt, ground arith)
]

-- While the clock stands still, `run` makes the calls of the alarms at the front of the queue that are
-- due, in the order of their ids, and leaves the others, the first of which is not due.
pub run_lem :
    (now : ℕ) (a : Alarm)
    → (due : List Entry) × (rest : List Entry) × (a.waiting ≡ due ++ rest)
      × (run (λ j. now) a ≡ (record a { waiting = rest }, calls_of due))
      × All (λ e. e.time < now) due
      × NotDue now rest
unfolding run
run_lem now a =
    let (due, rest, s, r, d, n) = run_from_lem now 0 a.waiting in
    (due, rest, s, ap (λ u. (record a { waiting = u.0 }, u.1)) r, d, n)
