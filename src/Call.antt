-- ===== src/Call.antt =====
-- A remote call from end to end: src/rpc/client.cpp and src/rpc/server.cpp joined by a network that
-- delivers what each side has to send.
use s_rpc.Base.{
  ℕ, suc, ◌^◌, ◌<◌, ◌≡◌, refl, sym, ◌∙◌, ap, inl, Bool, true, false, Option, some, List, [], ◌∷◌,
  ◌++◌, arith, length, take, drop, append-nil, length-append, ltb, ==_refl,
}
use mathlib.Core.Path.{subst}
use s_rpc.Base.Int.{ℤ, pos}
use s_rpc.Base.Outcome.{Outcome, done, ◌>>=◌}
use s_rpc.SparseInt.{magnitude, pattern_of, signed, of_bytes}
use s_rpc.Marshal.Wire.{State, bytes_of, put_bytes}
use s_rpc.Marshal.Wire.Scalars.{Valid, pending, put_bytes-Puts, length-bytes_of, signed-bytes_of}
use s_rpc.Marshal.Bookmark.Marked.{written, put_all, put_all-written, NoneEmpty, join}
use s_rpc.Packet.{frame, request_packet, reply_packet}
use s_rpc.Server.{Connection, Handlers, serve}
use s_rpc.Server.Service.{Service, ImplementsAll, service, owed, replies, serve-replies}
use s_rpc.Server.Replies
use s_rpc.Packet.Reading.{Survives}
use s_rpc.Client.Table.{eq_ℤ_refl}
use s_rpc.Client.{
  Client, Future, find, enter, update, ref_copy, begin_request, end_request, take_replies,
}
use s_rpc.Client.Requests
use s_rpc.Client.Requests.{signed_small, xid_of, body_of, end_request-begin_request}
use s_rpc.Client.Replies.{Reply, Waiting, Answered}
use s_rpc.Client.Stream.{take_replies-stream}

-- The request is begun, its arguments are written, it is ended; its bytes reach the server, which
-- serves it; the bytes of the reply reach the client.
unfoldable pub call :
    (ℕ → List ℕ)
    → (ℕ → List ℕ × List ℕ)
    → Handlers
    → ℤ
    → Bool
    → List (List ℕ)
    → Client
    → State
    → Connection
    → Outcome (Option ℕ × Client)
call junk junks handlers rpc_id callback arguments c s k = do
  (fu, d) ← begin_request (λ i x. x) rpc_id callback c
  o ← put_all arguments d.out
  let e = end_request (record d { out = o })
  (t, l) ← serve junk 2 handlers (put_bytes (pending e.out) s) k
  f ← take_replies junks 2 (record e { in_ = put_bytes (pending l.out) e.in_ })
  done (fu, f)

front :
    (n : ℕ) (xs ys : List ℕ) → length xs ≡ n → (take n (xs ++ ys) ≡ xs) × (drop n (xs ++ ys) ≡ ys)
front n [] ys e = let z : n ≡ 0 = sym e in rw z (refl, refl)
front n (x ∷ xs) ys e =
    let k : n ≡ suc (length xs) = sym e in
    let (a, b) = front (length xs) xs ys refl in rw k (ap (◌∷◌ x) a, b)

-- The server reads back the rpc id and the arguments that the client wrote.
owed-append :
    (gs : List (ℤ × Service)) (xid rpc_id : ℤ) (id arguments : List ℕ)
    → length id ≡ 4
    → signed 32 (of_bytes id) ≡ rpc_id
    → let r = service rpc_id gs arguments in
      owed gs (xid, id ++ arguments) ≡ reply_packet xid r.0 r.1
owed-append gs xid rpc_id id arguments four value =
    let long : ltb (length (id ++ arguments)) 4 ≡ false =
      ground (arith, length-append id arguments, four) in
    let (a, b) = front 4 id arguments four in rw (long, a, b, value) refl

owed-body_of :
    (gs : List (ℤ × Service)) (xid rpc_id : ℤ) (arguments : List (List ℕ))
    → magnitude rpc_id < 2 ^ 31
    → let r = service rpc_id gs (join arguments) in
      owed gs (xid, body_of rpc_id arguments) ≡ reply_packet xid r.0 r.1
owed-body_of gs xid rpc_id arguments h =
    owed-append gs xid rpc_id (bytes_of 4 (pattern_of 32 rpc_id)) (join arguments)
      (length-bytes_of 4 (pattern_of 32 rpc_id)) (signed-bytes_of 3 rpc_id h)

-- The client's own side of a new request: its future waits under its xid.
entered-Waiting :
    (callback : Bool) (c : Client)
    → c.xid_counter < 2 ^ 63
    → let m = enter callback (record c { out_l = true }) in
      (find (xid_of c) m.pending_fu ≡ some c.allocated)
      × Waiting
          (xid_of c)
          (update m.futures c.allocated (ref_copy (m.futures c.allocated)) c.allocated)
unfolding enter find
entered-Waiting callback c small =
    let x = signed_small c.xid_counter small in
    (
      rw (x, eq_ℤ_refl (pos c.xid_counter)) refl,
      rw (==_refl c.allocated)
          (record { same_xid = x; empty = refl; in_time = refl; owned = omega arith }),
    )

enter-in_ : (callback : Bool) (c : Client) → (enter callback c).in_ ≡ c.in_
unfolding enter
enter-in_ callback c = refl

-- What one side has to send, put behind what waits on the other, which is nothing.
arrives :
    (p : List ℕ) (s : State)
    → Valid s
    → pending s ≡ []
    → (pending (put_bytes p s) ≡ p) × Valid (put_bytes p s)
arrives p s v e = let (a, w) = put_bytes-Puts p s v in (a ∙ ap (λ l. l ++ p) e, w)

-- A call over a connection on which nothing else waits, of a connected client whose lock is free
-- and whose next xid is below 2 ^ 48, to a server whose handlers run services and reply at once,
-- with an rpc id of 32 bits, arguments none of which is written as no bytes, and packets of less
-- than 2 ^ 31 bytes: the call returns, with the assert of each write holding, the future just
-- made, which is then ready with the error code and exactly the results of the service that the
-- table has for the id, applied to exactly the arguments written (ENOENT and nothing, where it has
-- none); nothing is left unread.
pub call_lem :
    (junk : ℕ → List ℕ) (junks : ℕ → List ℕ × List ℕ) (fs : Handlers) (gs : List (ℤ × Service))
    (rpc_id : ℤ) (callback : Bool) (arguments : List (List ℕ)) (c : Client) (s : State)
    (k : Connection)
    → Requests.Ready c
    → c.xid_counter < 2 ^ 48
    → pending c.out ≡ []
    → Valid c.in_
    → pending c.in_ ≡ []
    → Valid s
    → pending s ≡ []
    → Replies.Ready k
    → pending k.out ≡ []
    → ImplementsAll fs gs
    → magnitude rpc_id < 2 ^ 31
    → NoneEmpty arguments
    → length (request_packet (xid_of c) (body_of rpc_id arguments)) < 2 ^ 31
    → let r = service rpc_id gs (join arguments) in
      magnitude r.0 < 2 ^ 31
      → length (reply_packet (xid_of c) r.0 r.1) < 2 ^ 31
      → (f : Client) × (call junk junks fs rpc_id callback arguments c s k
          ≡ done (some c.allocated, f))
        × Answered f.in_.0
            (record { xid = xid_of c; error_code = r.0; results = r.1 })
            (f.futures c.allocated)
        × (pending f.in_ ≡ [])
unfolding call
call_lem junk junks fs gs rpc_id callback arguments c s k ready small quiet v_in quiet_in v_s
      quiet_s ready_k quiet_k implements small_id some_bytes short small_error short_reply =
    let xid = xid_of c in
    let body = body_of rpc_id arguments in
    let r = service rpc_id gs (join arguments) in
    let reply : Reply = record { xid = xid; error_code = r.0; results = r.1 } in
    let survives : Survives xid = (omega (arith, small), inl (omega (arith, small))) in
    let (d, begun, valid_d, (out, _, _, _, (futures, table, incoming))) =
      end_request-begin_request rpc_id callback arguments c ready in
    let e = end_request (record d { out = written arguments d.out }) in
    let sent_bytes : pending e.out ≡ frame (request_packet xid body) =
      out ∙ ap (λ l. l ++ frame (request_packet xid body)) quiet in
    let (there, valid_there) = arrives (pending e.out) s v_s quiet_s in
    let (t, l, served, answers, _, _, _) =
      serve-replies junk fs gs ((xid, body) ∷ []) [] 2 (put_bytes (pending e.out) s) k implements
        ((survives, short), tt) (inl (omega arith)) (omega arith) valid_there
        (there ∙ sent_bytes ∙ sym (append-nil _) ∙ sym (append-nil _)) ready_k in
    let back : pending l.out ≡ frame (reply_packet xid r.0 r.1) =
      answers
      ∙ ap (λ z. z ++ replies gs ((xid, body) ∷ [])) quiet_k
      ∙ append-nil _
      ∙ ap frame (owed-body_of gs xid rpc_id arguments small_id) in
    let same_in : e.in_ ≡ c.in_ = incoming ∙ enter-in_ callback (record c { out_l = true }) in
    let (here, valid_here) =
      arrives (pending l.out) e.in_ (subst Valid (sym same_in) v_in)
        (ap pending same_in ∙ quiet_in) in
    let g : Client = record e { in_ = put_bytes (pending l.out) e.in_ } in
    let (found, waiting) = entered-Waiting callback c ready.xids_left in
    let (f, taken, (answered, _), _, left, _, memory) =
      take_replies-stream junks ((reply, c.allocated) ∷ []) [] 2 g
        ((survives, small_error, short_reply), tt) (inl (omega arith)) (omega arith) valid_here
        (here ∙ back ∙ sym (append-nil _) ∙ sym (append-nil _)) (tt, tt)
        (
          (
            ap (find xid) table ∙ found,
            subst (λ (h : ℕ → Future). Waiting xid (h c.allocated)) (sym futures) waiting,
          ),
          tt,
        ) in
    (
      f,
      rw (begun, put_all-written arguments d.out valid_d some_bytes, served, taken) refl,
      subst (λ h. Answered h reply (f.futures c.allocated)) (sym memory) answered,
      left,
    )
