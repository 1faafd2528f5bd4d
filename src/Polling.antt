-- ===== src/Polling.antt =====
-- PollMgr::PollThread and PollMgr of src/rpc/polling.hpp and polling.cpp, built without DPDK and on
-- Linux: which Pollables a thread polls, and how it holds on to them.
-- A Pollable is named by a number; `fd` is what its fd() answers. `refs` has the counters of all of
-- them. The epoll descriptor is a state of type K, and `epoll_ctl` an argument: it answers whether the
-- call returned 0. An operation is one step, also `remove`, which takes its two locks one after the
-- other; the loop's removals are a step each.
pub mod Held
pub mod Reached
use s_rpc.Base.{
  ℕ, zero, suc, ◌+◌, ◌-◌, ◌*◌, ◌/◌, ◌%◌, ◌^◌, List, [], ◌∷◌, ◌++◌, Bool, true, false, not, Option,
  some, none, length, get_or, set, elem, insert, erase_all, ltb, ◌==◌, if◌then◌else◌, bit_and,
}
use Prim.Native.Nat.{bit_xor}
use s_rpc.Base.Outcome.{Outcome, done, fault, deleted, ◌>>=◌, ◌>>◌, verify, in_bounds}

-- The events that a Pollable is polled for, beside EPOLLET and EPOLLRDHUP.
pub record Events : Type 0 where
  pub epollin : Bool
  pub epollout : Bool

pub data Control : Type 0 where
  ctl_add ctl_mod : Events → Control
  ctl_del : Control

pub record PollThread (K : Type 0) : Type 0 where
  pub mode : List (ℕ × ℕ)
  pub poll_set : List ℕ
  pub poll_set_arr : List ℕ
  pub pending_remove : List ℕ
  pub fjobs : List ℕ
  pub epoll : K
  pub refs : ℕ → ℕ

abbrev pub bump : ℕ → (ℕ → ℕ) → ℕ → ℕ
bump p refs q = if q == p then refs q + 1 else refs q

abbrev pub lower : ℕ → (ℕ → ℕ) → ℕ → ℕ
lower p refs q = if q == p then refs q - 1 else refs q

-- RefCounted::release; at 0 the object is deleted.
unfoldable pub release : ℕ → (ℕ → ℕ) → Outcome (ℕ → ℕ)
release p refs = if refs p == 0 then fault deleted else done (lower p refs)

-- The map of modes.
abbrev pub mode_at : ℕ → List (ℕ × ℕ) → Option ℕ
mode_at f [] = none
mode_at f ((g, m) ∷ ms) = if f == g then some m else mode_at f ms

abbrev pub mode_erase : ℕ → List (ℕ × ℕ) → List (ℕ × ℕ)
mode_erase f [] = []
mode_erase f ((g, m) ∷ ms) = let rest = mode_erase f ms in if f == g then rest else (g, m) ∷ rest

abbrev pub is_none : {A : Type 0} → Option A → Bool
is_none none = true
is_none (some a) = false

-- Pollable::READ and Pollable::WRITE
unfoldable pub has_read : ℕ → Bool
has_read mode = not (bit_and mode 1 == 0)

unfoldable pub has_write : ℕ → Bool
has_write mode = not (bit_and mode 2 == 0)

module _ {K : Type 0} (fd : ℕ → ℕ) (epoll_ctl : Control → ℕ → K → Bool × K) where
  -- A call of epoll_ctl under `verify`.
  unfoldable pub control : Control → ℕ → K → Outcome K
  control c f k = let (ok, k') = epoll_ctl c f k in verify ok >> done k'

  -- PollThread::add, of a Pollable whose poll_mode() answers `m`
  unfoldable pub add : ℕ → ℕ → PollThread K → Outcome (PollThread K)
  add p m s = do
    verify (not (elem p s.poll_set))
    verify (is_none (mode_at (fd p) s.mode))
    in_bounds (ltb (length s.poll_set_arr) 1024)
    k ← control (ctl_add (record { epollin = true; epollout = has_write m })) (fd p) s.epoll
    done (record s {
      refs = bump p s.refs;
      poll_set = p ∷ s.poll_set;
      poll_set_arr = s.poll_set_arr ++ (p ∷ []);
      mode = (fd p, m) ∷ s.mode;
      epoll = k;
    })

  -- PollThread::remove
  unfoldable pub remove : ℕ → PollThread K → Outcome (PollThread K)
  remove p s =
      if elem p s.poll_set
      then (verify (not (is_none (mode_at (fd p) s.mode)))
          >> done (record s {
            poll_set = erase_all p s.poll_set;
            mode = mode_erase (fd p) s.mode;
            pending_remove = insert p s.pending_remove;
          }))
      else (verify (is_none (mode_at (fd p) s.mode)) >> done s)

  -- The rest of PollThread::update_mode, where the map has the old mode.
  unfoldable pub change_mode : ℕ → ℕ → Option ℕ → PollThread K → Outcome (PollThread K)
  change_mode p new none s = verify false >> done s
  change_mode p new (some old) s =
      let t = record s { mode = (fd p, new) ∷ mode_erase (fd p) s.mode } in
      if new == old then done t else do
        k ←
            control (ctl_mod (record { epollin = has_read new; epollout = has_write new })) (fd p)
              s.epoll
        done (record t { epoll = k })

  unfoldable pub update_mode : ℕ → ℕ → PollThread K → Outcome (PollThread K)
  update_mode p new s =
      if elem p s.poll_set then change_mode p new (mode_at (fd p) s.mode) s else done s

  -- One Pollable of the list that is dropped at the end of a round of `poll_loop`; what epoll_ctl
  -- answers is not looked at.
  unfoldable pub drop_one : ℕ → PollThread K → Outcome (PollThread K)
  drop_one p s =
      let k =
        if is_none (mode_at (fd p) s.mode) then (epoll_ctl ctl_del (fd p) s.epoll).1 else s.epoll in
      do refs ← release p s.refs; done (record s { epoll = k; refs = refs })

-- The end of a round of `poll_loop` takes what waits to be dropped, and then drops one after another.
unfoldable pub collect : {K : Type 0} → PollThread K → List ℕ × PollThread K
collect s = (s.pending_remove, record s { pending_remove = [] })

-- The frequent jobs of a thread, in a set.
unfoldable pub add_job : {K : Type 0} → ℕ → PollThread K → PollThread K
add_job j s = record s { fjobs = insert j s.fjobs }

unfoldable pub remove_job : {K : Type 0} → ℕ → PollThread K → PollThread K
remove_job j s = record s { fjobs = erase_all j s.fjobs }

-- `hash_fd`, in 64 bits
unfoldable pub hash_fd : ℕ → ℕ
hash_fd key =
    let a = bit_xor (bit_xor key 61) (key / 2 ^ 16) in
    let b = (a + a * 2 ^ 3) % 2 ^ 64 in
    let c = bit_xor b (b / 2 ^ 4) in let d = (c * 0x27d4eb2d) % 2 ^ 64 in bit_xor d (d / 2 ^ 15)

-- The thread of a PollMgr of `n` threads that polls a Pollable of descriptor `f`.
unfoldable pub thread_of : ℕ → ℕ → ℕ
thread_of n f = hash_fd f % n
