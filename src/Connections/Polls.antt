-- ===== src/Connections/Polls.antt =====
-- What the calls of a PollThread do to poll_set_.
use s_rpc.Base.{
  ℕ, ◌≡◌, refl, ◌∷◌, Bool, true, not, Option, some, none, elem, length, ltb, ◌==◌, Bool-cases, inl,
  inr,
}
use s_rpc.Base.Outcome.{verify, in_bounds, After, After-then, After-if}
use s_rpc.Polling.{
  PollThread, Control, ctl_add, ctl_mod, mode_at, is_none, has_read, has_write, control, add,
  change_mode, update_mode, release, drop_one,
}

module _ {K : Type 0} (fd : ℕ → ℕ) (epoll_ctl : Control → ℕ → K → Bool × K) where
  pub add_polls :
      (p m : ℕ) (s : PollThread K)
      → After (λ t. t.poll_set ≡ p ∷ s.poll_set) (add fd epoll_ctl p m s)
  unfolding add
  add_polls p m s = elim (Bool-cases (is_none (mode_at (fd p) s.mode))) [
    | inr old ↦ rw old (After-then _ (verify (not (elem p s.poll_set))) _ (λ _. tt))
    | inl new ↦ rw new (
        After-then _ (verify (not (elem p s.poll_set))) _ (λ _.
          After-then _ (in_bounds (ltb (length s.poll_set_arr) 1024)) _ (λ _.
            After-then _
              (control fd epoll_ctl (ctl_add (record { epollin = true; epollout = has_write m }))
                (fd p) s.epoll)
              _ (λ k. refl))))
  ]

  change_mode_polls :
      (p new : ℕ) (o : Option ℕ) (s : PollThread K)
      → After (λ t. t.poll_set ≡ s.poll_set) (change_mode fd epoll_ctl p new o s)
  unfolding change_mode
  change_mode_polls p new none s = tt
  change_mode_polls p new (some old) s =
      After-if _ (new == old) _ _ (λ _. refl)
        (λ _.
          After-then _
            (control fd epoll_ctl
              (ctl_mod (record { epollin = has_read new; epollout = has_write new })) (fd p)
              s.epoll)
            _ (λ k. refl))

  pub update_mode_polls :
      (p new : ℕ) (s : PollThread K)
      → After (λ t. t.poll_set ≡ s.poll_set) (update_mode fd epoll_ctl p new s)
  unfolding update_mode
  update_mode_polls p new s =
      After-if _ (elem p s.poll_set) _ _ (λ _. change_mode_polls p new (mode_at (fd p) s.mode) s)
        (λ _. refl)

  pub drop_one_keeps :
      (p : ℕ) (s : PollThread K) → After (λ t. t.poll_set ≡ s.poll_set) (drop_one fd epoll_ctl p s)
  unfolding drop_one release
  drop_one_keeps p s = elim (Bool-cases (s.refs p == 0)) [
    | inl none_left ↦ rw none_left tt
    | inr held ↦ rw held refl
  ]
