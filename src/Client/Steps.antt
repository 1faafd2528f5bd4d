-- ===== src/Client/Steps.antt =====
-- The client as a state machine: what its threads can do to it, in any order. A step is one stretch of
-- `begin_request`, one round of `handle_read`, or another call; the bytes that a reply brings are any.
use s_rpc.Base.{
  ℕ, suc, ◌^◌, ◌<◌, ◌≤◌, ◌≡◌, ◌≢◌, ◌⊎◌, All, if◌then◌else◌, inl, inr, sym, Bool, Option, none, some,
  List, arith,
}
use mathlib.Core.Path.{subst}
use s_rpc.Base.Int.{ℤ}
use s_rpc.Base.Outcome.{done}
use s_rpc.Client.{
  Client, Future, is_connected, expire, finish_timed_wait, release, update, enter, give_up,
  write_head, hand_out, end_request, take_reply, close, connect,
}
use s_rpc.Client.Table.{update_self, update_other}
use s_rpc.Client.Tracked.{Tracks, same_or}

pub record IsTracked (c : Client) : Type 0 where
  pub tracks : Tracks c.allocated c.futures c.pending_fu
  pub counted : c.xid_counter ≡ c.allocated

abbrev pub with_future : Client → ℕ → Future → Client
with_future c a f = record c { futures = update c.futures a f }

-- The thread that is within `begin_request`, with the future that it has made: none, or before its
-- second look at the status, where it has found the client closed, where it has found it connected, or
-- behind the writes to the packet. The lock lets one in at a time.
pub data Position : Type 0 where
  looking giving_up writing_head handing_out : Position

abbrev pub Progress : Type 0
Progress = Option (Position × ℕ)

-- A reference of future `a` may be dropped that is not the table's.
abbrev pub IsOthers : Client → ℕ → Type 0
IsOthers c a = All (λ e. e.1 ≢ a) c.pending_fu ⊎ (1 < (c.futures a).refs)

-- A step of one thread. Where it would use a deleted future, the process has no defined step.
pub data Step : Client × Progress → Client × Progress → Type 0 where
  enters :
      (c : Client) (callback : Bool)
      → suc c.xid_counter < 2 ^ 63
      → Step (c, none) (enter callback c, some (looking, c.allocated))
  looks :
      (c : Client) (a : ℕ)
      → Step
          (c, some (looking, a))
          (c, some (if is_connected c.status then writing_head else giving_up, a))
  gives_up :
      (c : Client) (a : ℕ) (d : Client)
      → give_up a c ≡ done d
      → Step (c, some (giving_up, a)) (d, none)
  writes_head :
      (c : Client) (a : ℕ) (rpc_id : ℤ) (d : Client)
      → write_head a rpc_id c ≡ done d
      → Step (c, some (writing_head, a)) (d, some (handing_out, a))
  hands_out :
      (c : Client) (a : ℕ) (d : Client)
      → hand_out a c ≡ done d
      → Step (c, some (handing_out, a)) (d, none)
  connects :
      (c : Client) (p : Progress) (failed : Option ℤ) (e : ℤ) (d : Client)
      → connect failed c ≡ done (e, d)
      → Step (c, p) (d, p)
  ends : (c : Client) (p : Progress) → Step (c, p) (end_request c, p)
  replies :
      (c : Client) (p : Progress) (junk : List ℕ × List ℕ) (d : Client)
      → take_reply junk c ≡ done d
      → Step (c, p) (d, p)
  expires :
      (c : Client) (p : Progress) (a : ℕ)
      → a < c.allocated
      → Step (c, p) (with_future c a (expire (c.futures a)), p)
  finishes :
      (c : Client) (p : Progress) (a : ℕ)
      → a < c.allocated
      → Step (c, p) (with_future c a (finish_timed_wait (c.futures a)), p)
  drops :
      (c : Client) (p : Progress) (a : ℕ) (f : Future)
      → a < c.allocated
      → IsOthers c a
      → release (c.futures a) ≡ done f
      → Step (c, p) (with_future c a f, p)
  closes : (c : Client) (p : Progress) (d : Client) → close c ≡ done d → Step (c, p) (d, p)

pub data Run : Client × Progress → Client × Progress → Type 0 where
  stop : (s : Client × Progress) → Run s s
  more : (s t u : Client × Progress) → Step s t → Run t u → Run s u

-- No future gets a reference.
pub record Fewer (c d : Client) : Type 0 where
  pub allocated : d.allocated ≡ c.allocated
  pub refs : (b : ℕ) → (d.futures b).refs ≤ (c.futures b).refs

pub update-refs :
    (fs : ℕ → Future) (a : ℕ) (f : Future) (b : ℕ)
    → f.refs ≤ (fs a).refs
    → (update fs a f b).refs ≤ (fs b).refs
update-refs fs a f b le = elim (same_or b a) [
  | inl q ↦
      subst (λ (c : ℕ). (update fs a f c).refs ≤ (fs c).refs) (sym q)
        (subst (λ (g : Future). g.refs ≤ (fs a).refs) (sym (update_self fs a f)) le)
  | inr ne ↦
      subst (λ (g : Future). g.refs ≤ (fs b).refs) (sym (update_other fs a f b ne)) (omega arith)
]
