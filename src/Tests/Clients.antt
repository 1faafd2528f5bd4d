-- ===== src/Tests/Clients.antt =====
-- A client (src/rpc/client.cpp) and its futures.
use s_rpc.Base.{ℕ, ◌≡◌, refl, inl, true, false, ◌&&◌, some, none, List, [], ◌∷◌, arith, All, ◌≢◌}
use s_rpc.SparseInt.{dump_i64}
use s_rpc.Base.Int.{pos}
use s_rpc.Base.Outcome.{done}
use s_rpc.Marshal.Buffer.{empty_marshal}
use s_rpc.Marshal.Wire.Scalars.{Valid, pending}
use s_rpc.Client.{
  Client, Future, new_future, find, take_reply, take_replies, enter, expire, notify_ready,
}
use s_rpc.Client.Replies.{Reply, Answered, take_reply_lost}
use s_rpc.Client.Stream.{take_replies-stream}
use s_rpc.Client.Futures
use s_rpc.Client.Futures.{settled_for_good}
use s_rpc.Client.Steps.{enters, looks, looking, giving_up, Run, stop, more}
use s_rpc.Client.Woken.{no_future_lost}
use s_rpc.Tests.Calls.{nothing, holding, holding_lem, no_futures, fresh_client, client, no_junks}

-- A reply of the client's one request, and the beginning of another.
abbrev reply_9 : Reply
reply_9 = record { xid = pos 0; error_code = pos 9; results = 40 ∷ 41 ∷ [] }

abbrev reply_bytes : List ℕ
reply_bytes = 4 ∷ 0 ∷ 0 ∷ 0 ∷ 0 ∷ 9 ∷ 40 ∷ 41 ∷ 5 ∷ 0 ∷ []

abbrev waiting_client : Client
waiting_client = record client {
  in_ = holding reply_bytes;
  pending_fu = (pos 0, 0) ∷ [];
  futures = λ a. new_future (pos 0) true;
  allocated = 1;
}

take_replies-stream_example :
    (d : Client) × (take_replies no_junks 2 waiting_client ≡ done d)
    × All {A = Reply × ℕ}
        (λ p. Answered waiting_client.in_.0 p.0 (d.futures p.1))
        ((reply_9, 0) ∷ [])
    × ((b : ℕ)
        → All {A = Reply × ℕ} (λ p. p.1 ≢ b) ((reply_9, 0) ∷ [])
        → d.futures b ≡ waiting_client.futures b)
    × (pending d.in_ ≡ 5 ∷ 0 ∷ [])
    × Valid d.in_
    × (d.in_.0 ≡ waiting_client.in_.0)
unfolding dump_i64 find
take_replies-stream_example =
    take_replies-stream no_junks ((reply_9, 0) ∷ []) (5 ∷ 0 ∷ []) 2 waiting_client
      (((omega arith, inl (omega arith)), omega arith, omega arith), tt) (inl (omega arith))
      (omega arith) (holding_lem reply_bytes).1 (holding_lem reply_bytes).0 (tt, tt)
      ((refl, record { same_xid = refl; empty = refl; in_time = refl; owned = omega arith }), tt)

take_reply_lost_example :
    (d : Client) × (take_reply (77 ∷ [], []) (record waiting_client { pending_fu = [] }) ≡ done d)
    × (pending d.in_ ≡ 40 ∷ 41 ∷ 5 ∷ 0 ∷ [])
    × (d.futures ≡ waiting_client.futures)
    × (d.pending_fu ≡ [])
unfolding dump_i64 find
take_reply_lost_example =
    take_reply_lost (77 ∷ [], []) reply_9 (5 ∷ 0 ∷ []) (record waiting_client { pending_fu = [] })
      ((omega arith, inl (omega arith)), omega arith, omega arith) (holding_lem reply_bytes).1
      (holding_lem reply_bytes).0 refl

-- A request is entered, and its thread finds the client not connected.
abbrev entered : Client
entered = enter true fresh_client

entered-Run : Run (fresh_client, none) (entered, some (giving_up, 0))
unfolding enter
entered-Run =
    more (fresh_client, none) (entered, some (looking, 0)) (entered, some (giving_up, 0))
      (enters fresh_client true (omega arith))
      (more (entered, some (looking, 0)) (entered, some (giving_up, 0))
        (entered, some (giving_up, 0)) (looks entered 0) (stop (entered, some (giving_up, 0))))

no_future_lost_example : find (entered.futures 0).xid entered.pending_fu ≡ some 0
unfolding enter
no_future_lost_example =
    no_future_lost nothing nothing no_futures entered (some (giving_up, 0)) 0 entered-Run
      (omega arith) (omega arith) refl

-- The reply of a future that has timed out comes too late.
abbrev late_future : Future
late_future = record (new_future (pos 1) false) { timed_out = true }

settled_for_good_example :
    (late_future.ready ≡ true → (notify_ready late_future).ready ≡ true)
    × (late_future.timed_out ≡ true
        → ((notify_ready late_future).timed_out ≡ true)
          × ((notify_ready late_future).ready ≡ late_future.ready))
settled_for_good_example = settled_for_good late_future (notify_ready late_future) (
    Futures.more late_future (notify_ready late_future) (notify_ready late_future)
      (Futures.replied late_future (pos 0) empty_marshal) (Futures.stop (notify_ready late_future)))

-- A deadline that has passed is noted also where the reply has come before the wait returns.
both : let f = expire (notify_ready (new_future (pos 1) false)) in (f.ready && f.timed_out) ≡ true
unfolding expire notify_ready
both = refl
