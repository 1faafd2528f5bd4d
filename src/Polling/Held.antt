-- ===== src/Polling/Held.antt =====
-- What each operation of a PollThread does to the references that it holds.
use mathlib.Core.Path.{subst}
use s_rpc.Base.{
  ℕ, ◌+◌, ◌≡◌, refl, sym, List, [], ◌∷◌, ◌++◌, Bool, true, false, not, Option, some, none, arith,
  length, elem, insert, erase_all, elem-erase_all, ltb, ◌==◌, ==_iff, if◌then◌else◌, Bool-cases,
  inl, inr, length-append,
}
use s_rpc.Base.Outcome.{Succeeds, verify, in_bounds, After, After-then, After-if}
use s_rpc.Polling.{
  PollThread, Control, ctl_add, bump, lower, release, mode_at, mode_erase, is_none, has_write,
  control, add, remove, change_mode, update_mode, drop_one,
}

abbrev pub bit : Bool → ℕ
bit true = 1
bit false = 0

abbrev pub OnceEach : List ℕ → Type 0
OnceEach [] = Unit {0}
OnceEach (p ∷ ps) = (elem p ps ≡ false) × OnceEach ps

-- Beside the references that others hold, each Pollable has one for the set of those that are polled
-- and one for the set of those that wait to be dropped; it is in one of these at most.
pub record IsHeld {K : Type 0} (others : ℕ → ℕ) (s : PollThread K) : Type 0 where
  pub counted :
      (q : ℕ) → s.refs q ≡ others q + bit (elem q s.poll_set) + bit (elem q s.pending_remove)
  pub apart : (q : ℕ) → elem q s.poll_set ≡ true → elem q s.pending_remove ≡ false
  pub once : OnceEach s.pending_remove

pub at_or_other : (P : ℕ → Type 0) (p q : ℕ) → P p → ((q == p) ≡ false → P q) → P q
at_or_other P p q here other = elim (Bool-cases (q == p)) [
  | inl same ↦ subst P (sym ((==_iff q p).0 same)) here
  | inr apart ↦ other apart
]

elem-insert : (q p : ℕ) (ps : List ℕ) → elem q (insert p ps) ≡ (if q == p then true else elem q ps)
elem-insert q p ps =
    at_or_other (λ x. elem x (insert p ps) ≡ (if x == p then true else elem x ps)) p q
      (ground arith) (λ apart. ground (arith, apart))

OnceEach-insert : (p : ℕ) (ps : List ℕ) → OnceEach ps → OnceEach (insert p ps)
OnceEach-insert p ps h = elim (Bool-cases (elem p ps)) [
  | inl there ↦ rw there h
  | inr new ↦ rw new (new, h)
]

module _ {K : Type 0} (others : ℕ → ℕ) (s : PollThread K) (h : IsHeld others s) where
  -- A Pollable that is not polled and does not wait to be dropped is added.
  added-IsHeld :
      (p : ℕ) (arr : List ℕ) (mode : List (ℕ × ℕ)) (k : K)
      → elem p s.poll_set ≡ false
      → elem p s.pending_remove ≡ false
      → IsHeld others (record s {
        refs = bump p s.refs;
        poll_set = p ∷ s.poll_set;
        poll_set_arr = arr;
        mode = mode;
        epoll = k;
      })
  added-IsHeld p arr mode k new free = record {
    counted = λ q.
        at_or_other
          (λ x.
            bump p s.refs x
            ≡ others x + bit (elem x (p ∷ s.poll_set)) + bit (elem x s.pending_remove))
          p q (ground (arith, h.counted p, new, free)) (λ other. rw other (h.counted q));
    apart = λ q.
        at_or_other (λ x. elem x (p ∷ s.poll_set) ≡ true → elem x s.pending_remove ≡ false) p q
          (λ _. free) (λ other. rw other (h.apart q));
    once = h.once;
  }

  removed-IsHeld :
      (p : ℕ) (mode : List (ℕ × ℕ))
      → elem p s.poll_set ≡ true
      → IsHeld others (record s {
        poll_set = erase_all p s.poll_set;
        mode = mode;
        pending_remove = insert p s.pending_remove;
      })
  removed-IsHeld p mode there = record {
    counted = λ q.
        rw (elem-erase_all q p s.poll_set, elem-insert q p s.pending_remove)
          (at_or_other
            (λ x.
              s.refs x
              ≡ others x
                + bit (if x == p then false else elem x s.poll_set)
                + bit (if x == p then true else elem x s.pending_remove))
            p q (ground (arith, h.counted p, there, h.apart p there))
            (λ other. rw other (h.counted q)));
    apart = λ q.
        rw (elem-erase_all q p s.poll_set, elem-insert q p s.pending_remove)
          (at_or_other
            (λ x.
              (if x == p then false else elem x s.poll_set) ≡ true
              → (if x == p then true else elem x s.pending_remove) ≡ false)
            p q (ground arith) (λ other. rw other (h.apart q)));
    once = OnceEach-insert p s.pending_remove h.once;
  }

module _ {K : Type 0} (fd : ℕ → ℕ) (epoll_ctl : Control → ℕ → K → Bool × K) (others : ℕ → ℕ) where
  pub add-IsHeld :
      (p m : ℕ) (s : PollThread K)
      → elem p s.pending_remove ≡ false
      → IsHeld others s
      → After
          (λ t. IsHeld others t × (length t.poll_set_arr ≡ length s.poll_set_arr + 1))
          (add fd epoll_ctl p m s)
  unfolding add
  add-IsHeld p m s free h = elim (Bool-cases (elem p s.poll_set)) [
    | inl there ↦ rw there tt
    | inr new ↦ rw new (
        After-then _ (verify (is_none (mode_at (fd p) s.mode))) _ (λ _.
          After-then _ (in_bounds (ltb (length s.poll_set_arr) 1024)) _ (λ _.
            After-then _
              (control fd epoll_ctl (ctl_add (record { epollin = true; epollout = has_write m }))
                (fd p) s.epoll)
              _
              (λ k. (
                added-IsHeld others s h p (s.poll_set_arr ++ (p ∷ [])) ((fd p, m) ∷ s.mode) k new
                    free,
                length-append s.poll_set_arr (p ∷ []),
              )))))
  ]

  pub remove-IsHeld :
      (p : ℕ) (s : PollThread K)
      → IsHeld others s
      → After (λ t. IsHeld others t × (t.poll_set_arr ≡ s.poll_set_arr)) (remove fd epoll_ctl p s)
  unfolding remove
  remove-IsHeld p s h = elim (Bool-cases (elem p s.poll_set)) [
    | inl there ↦ rw there (
        After-then _ (verify (not (is_none (mode_at (fd p) s.mode)))) _
          (λ _. (removed-IsHeld others s h p (mode_erase (fd p) s.mode) there, refl)))
    | inr free ↦
        rw free (After-then _ (verify (is_none (mode_at (fd p) s.mode))) _ (λ _. (h, refl)))
  ]

  change_mode-IsHeld :
      (p new : ℕ) (o : Option ℕ) (s : PollThread K)
      → IsHeld others s
      → After
          (λ t. IsHeld others t × (t.poll_set_arr ≡ s.poll_set_arr))
          (change_mode fd epoll_ctl p new o s)
  unfolding change_mode
  change_mode-IsHeld p new none s h = tt
  change_mode-IsHeld p new (some old) s h =
      After-if _ (new == old) _ _
        (λ _. (record { counted = h.counted; apart = h.apart; once = h.once }, refl))
        (λ _.
          After-then _ (control fd epoll_ctl _ (fd p) s.epoll) _
            (λ k. (record { counted = h.counted; apart = h.apart; once = h.once }, refl)))

  pub update_mode-IsHeld :
      (p new : ℕ) (s : PollThread K)
      → IsHeld others s
      → After
          (λ t. IsHeld others t × (t.poll_set_arr ≡ s.poll_set_arr))
          (update_mode fd epoll_ctl p new s)
  unfolding update_mode
  update_mode-IsHeld p new s h =
      After-if _ (elem p s.poll_set) _ _ (λ _. change_mode-IsHeld p new (mode_at (fd p) s.mode) s h)
        (λ _. (h, refl))

-- The references of those that are about to be dropped.
abbrev pub beside : (ℕ → ℕ) → List ℕ → ℕ → ℕ
beside others ps q = others q + bit (elem q ps)

-- A Pollable that is dropped has a reference left to give up.
pub drop_one-IsHeld :
    {K : Type 0} (fd : ℕ → ℕ) (epoll_ctl : Control → ℕ → K → Bool × K) (others : ℕ → ℕ) (p : ℕ)
    (ps : List ℕ) (s : PollThread K)
    → elem p ps ≡ false
    → IsHeld (beside others (p ∷ ps)) s
    → Succeeds
        (λ t. IsHeld (beside others ps) t × (t.poll_set_arr ≡ s.poll_set_arr))
        (drop_one fd epoll_ctl p s)
unfolding drop_one release
drop_one-IsHeld fd epoll_ctl others p ps s new h =
    let held : (s.refs p == 0) ≡ false = ground (arith, h.counted p) in
    rw held (
      record {
        counted = λ q.
            at_or_other
              (λ x.
                lower p s.refs x
                ≡ beside others ps x + bit (elem x s.poll_set) + bit (elem x s.pending_remove))
              p q (ground (arith, h.counted p, new))
              (λ other.
                let e = h.counted q in
                rw other (
                  subst
                    (λ b.
                      s.refs q
                      ≡ others q
                        + bit (if b then true else elem q ps)
                        + bit (elem q s.poll_set)
                        + bit (elem q s.pending_remove))
                    other e));
        apart = h.apart;
        once = h.once;
      },
      refl,
    )
