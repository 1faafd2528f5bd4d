-- ===== src/Tests/Calls.antt =====
-- Calls between a client (src/rpc/client.cpp) and a server (src/rpc/server.cpp).
use s_rpc.Base.{
  ℕ, ◌≡◌, refl, sym, ◌∙◌, ap, inl, true, false, none, some, List, [], ◌∷◌, ◌++◌, arith, append-nil,
}
use mathlib.Core.Path.{subst}
use s_rpc.SparseInt.{dump_i64}
use s_rpc.Base.Int.{ℤ, pos}
use s_rpc.Packet.{frame, reply_packet}
use s_rpc.Base.Outcome.{done, ◌>>=◌}
use s_rpc.Marshal.Buffer.{empty_marshal, content_size_slow, contents}
use s_rpc.Marshal.Wire.{State, put_bytes, get_bytes}
use s_rpc.Marshal.Wire.Scalars.{Valid, pending, put_bytes-Puts}
use s_rpc.Packet.Complete.{content_size-pending}
use s_rpc.Packet.Reading.{Takes-bytes}
use s_rpc.Server.{Connection, Handler, begin_reply, end_reply, serve}
use s_rpc.Server.Requests.{Sent}
use s_rpc.Server.Replies
use s_rpc.Server.Replies.{end_reply-begin_reply}
use s_rpc.Server.Service.{Service, Implements, replies, serve-replies}
use s_rpc.Client.{Client, Future, connected, new_future, new_client}
use s_rpc.Client.Requests
use s_rpc.Client.Replies.{Answered}
use s_rpc.Call.{call, call_lem}

abbrev pub nothing : State
nothing = (record { next = 0; at = λ b i. 0 }, empty_marshal)

pub nothing-Valid : Valid nothing
unfolding content_size_slow
nothing-Valid = record { chain = tt; apart = tt; counted = refl }

pub nothing-pending : pending nothing ≡ []
unfolding contents
nothing-pending = refl

-- A Marshal to which `p` has been written.
abbrev pub holding : List ℕ → State
holding p = put_bytes p nothing

pub holding_lem : (p : List ℕ) → (pending (holding p) ≡ p) × Valid (holding p)
holding_lem p =
    let (a, v) = put_bytes-Puts p nothing nothing-Valid in (a ∙ ap (λ l. l ++ p) nothing-pending, v)

abbrev pub idle_connection : Connection
idle_connection = record { out = nothing; bmark = none; out_l = false; writing = false }

pub idle_connection-Ready : Replies.Ready idle_connection
idle_connection-Ready = record { free = refl; valid = nothing-Valid; counted = refl }

abbrev echo_back : List ℕ → Connection → Connection
echo_back [] d = d
echo_back (x ∷ xs) d = record d { out = put_bytes (x ∷ xs) d.out }

-- A handler that sends its arguments back, where there are any.
abbrev echo : Handler
echo xid s c = get_bytes s.1.content_size s >>= λ r.
    begin_reply xid (pos 0) c >>= λ d. done (end_reply (echo_back r.0 d))

abbrev echo_service : Service
echo_service arguments = (pos 0, arguments)

echo-Implements : Implements echo echo_service
echo-Implements xid s c v r =
    let size = content_size-pending s v in
    let (t, got, _, _, _) = Takes-bytes (pending s) s [] v (sym (append-nil (pending s))) in
    let (d, begun, sent_back) = echoes (pending s) xid c r in
    (
      end_reply (echo_back (pending s) d),
      rw (subst (λ n. get_bytes n s ≡ done (pending s, t)) (sym size) got, begun) refl,
      sent_back.0,
      sent_back.1,
    )
  where
    echoes :
        (p : List ℕ) (xid : ℤ) (c : Connection)
        → Replies.Ready c
        → (d : Connection) × (begin_reply xid (pos 0) c ≡ done d)
          × (let e = end_reply (echo_back p d) in
              (pending e.out ≡ pending c.out ++ frame (reply_packet xid (pos 0) p))
              × Replies.Ready e)
    echoes [] xid c r =
        let (d, begun, (all, ready, _)) = end_reply-begin_reply xid (pos 0) [] c (omega arith) r in
        (d, begun, (all, ready))
    echoes (x ∷ xs) xid c r =
        let (d, begun, (all, ready, _)) =
          end_reply-begin_reply xid (pos 0) ((x ∷ xs) ∷ []) c (omega arith) r in
        (d, begun, (rw (append-nil (x ∷ xs)) at all, ready))

abbrev pub no_futures : ℕ → Future
no_futures a = record (new_future (pos 0) false) { refs = 0 }

abbrev pub fresh_client : Client
fresh_client = new_client nothing nothing no_futures

abbrev pub client : Client
client = record fresh_client { status = connected }

client-Ready : Requests.Ready client
client-Ready = record {
  free = refl;
  open_ = refl;
  valid = nothing-Valid;
  counted = refl;
  xids_left = omega arith;
}

abbrev pub no_junk : ℕ → List ℕ
no_junk n = 77 ∷ []

abbrev pub no_junks : ℕ → List ℕ × List ℕ
no_junks n = (77 ∷ [], 88 ∷ [])

-- The service 5 sends its arguments back.
call_lem_example :
    (f : Client) × (call no_junk no_junks
        ((pos 5, echo) ∷ [])
        (pos 5)
        true
        ((1 ∷ 2 ∷ []) ∷ (3 ∷ []) ∷ [])
        client
        nothing
        idle_connection
      ≡ done (some 0, f))
    × Answered f.in_.0
        (record { xid = pos 0; error_code = pos 0; results = 1 ∷ 2 ∷ 3 ∷ [] })
        (f.futures 0)
    × (pending f.in_ ≡ [])
unfolding dump_i64
call_lem_example =
    call_lem no_junk no_junks ((pos 5, echo) ∷ []) ((pos 5, echo_service) ∷ []) (pos 5) true
      ((1 ∷ 2 ∷ []) ∷ (3 ∷ []) ∷ []) client nothing idle_connection client-Ready (omega arith)
      nothing-pending nothing-Valid nothing-pending nothing-Valid nothing-pending
      idle_connection-Ready nothing-pending (refl, echo-Implements, tt) (omega arith)
      (omega arith, (omega arith, tt)) (omega arith) (omega arith) (omega arith)

-- A request with no rpc id, and one with an id that no service has.
abbrev pub two_requests : List Sent
two_requests = (pos 3, []) ∷ (pos 4, 9 ∷ 0 ∷ 0 ∷ 0 ∷ []) ∷ []

abbrev two_packets : List ℕ
two_packets = 1 ∷ 0 ∷ 0 ∷ 0 ∷ 3 ∷ 5 ∷ 0 ∷ 0 ∷ 0 ∷ 4 ∷ 9 ∷ 0 ∷ 0 ∷ 0 ∷ 6 ∷ []

serve-replies_example :
    (t : State) × (d : Connection) × (serve no_junk 3 [] (holding two_packets) idle_connection
      ≡ done (t, d))
    × (pending d.out ≡ pending nothing ++ replies [] two_requests)
    × (pending t ≡ 6 ∷ [])
    × Valid t
    × Replies.Ready d
unfolding dump_i64
serve-replies_example =
    serve-replies no_junk [] [] two_requests (6 ∷ []) 3 (holding two_packets) idle_connection tt
      (
        ((omega arith, inl (omega arith)), omega arith),
        (((omega arith, inl (omega arith)), omega arith), tt),
      )
      (inl (omega arith)) (omega arith) (holding_lem two_packets).1 (holding_lem two_packets).0
      idle_connection-Ready
