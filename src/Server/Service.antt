-- ===== src/Server/Service.antt =====
-- What the server promises: each request that comes in is answered by one reply, in order.
use s_rpc.Base.{
  ℕ, ◌<◌, ◌≡◌, refl, sym, ◌∙◌, ap, true, false, List, [], ◌∷◌, ◌++◌, arith, length, take, drop,
  append_assoc, append-nil, ltb, if◌then◌else◌, All, Bool-cases, inl, inr, take-append-drop,
  length-take,
}
use mathlib.Core.Path.{subst}
use s_rpc.Base.Int.{ℤ, eq_ℤ}
use s_rpc.Base.Outcome.{done}
use s_rpc.SparseInt.{signed, of_bytes}
use s_rpc.Marshal.Memory.{Memory}
use s_rpc.Marshal.Wire.{State, get_int}
use s_rpc.Marshal.Wire.Scalars.{Valid, pending}
use s_rpc.Packet.{frame, reply_packet, Incomplete}
use s_rpc.Packet.Complete.{content_size-pending}
use s_rpc.Packet.Reading.{Takes, Takes-bytes}
use s_rpc.Server.{
  Request, Connection, Handler, Handlers, find, run_or, refuse, dispatch, dispatch_all, serve,
  einval, enoent,
}
use s_rpc.Server.Requests.{Sent, Sendable, Carries, CarriesAll, stream, cut_packets-stream}
use s_rpc.Server.Replies.{Ready, refuse_lem}

-- A service, from the bytes of the arguments to the error code and the bytes of the results.
abbrev pub Service : Type 0
Service = List ℕ → ℤ × List ℕ

-- A handler that runs a service and replies at once.
abbrev pub Implements : Handler → Service → Type 0
Implements f g =
    (xid : ℤ) (s : State) (c : Connection)
    → Valid s
    → Ready c
    → (d : Connection) × (f xid s c ≡ done d)
      × (pending d.out
          ≡ pending c.out ++ frame (reply_packet xid (g (pending s)).0 (g (pending s)).1))
      × Ready d

-- The table of the services, under the ids of the handlers.
abbrev pub ImplementsAll : Handlers → List (ℤ × Service) → Type 0
ImplementsAll [] [] = Unit {0}
ImplementsAll [] (g ∷ gs) = ⊥
ImplementsAll (f ∷ fs) [] = ⊥
ImplementsAll ((k, f) ∷ fs) ((i, g) ∷ gs) = (k ≡ i) × Implements f g × ImplementsAll fs gs

abbrev pub no_service : Service
no_service arguments = (enoent, [])

abbrev pub service : ℤ → List (ℤ × Service) → Service
service rpc_id [] = no_service
service rpc_id ((k, g) ∷ gs) = if eq_ℤ k rpc_id then g else service rpc_id gs

-- The reply that a request is owed: one that is too short for an rpc id gets EINVAL, an id that no
-- service has gets ENOENT.
abbrev pub owed : List (ℤ × Service) → Sent → List ℕ
owed gs (xid, body) =
    if ltb (length body) 4
    then reply_packet xid einval []
    else (let (error_code, results) =
          service (signed 32 (of_bytes (take 4 body))) gs (drop 4 body) in
        reply_packet xid error_code results)

abbrev pub replies : List (ℤ × Service) → List Sent → List ℕ
replies gs [] = []
replies gs (q ∷ qs) = frame (owed gs q) ++ replies gs qs

Implements-enoent : Implements (λ xid arguments. refuse xid enoent) no_service
Implements-enoent xid s c v r =
    let (d, e, all, ready, on) = refuse_lem xid enoent c (omega arith) r in (d, e, all, ready)

-- The function that is found implements the service of its id.
find-Implements :
    (rpc_id : ℤ) (fs : Handlers) (gs : List (ℤ × Service))
    → ImplementsAll fs gs
    → Implements (run_or (find rpc_id fs) (λ xid arguments. refuse xid enoent)) (service rpc_id gs)
unfolding find
find-Implements rpc_id [] [] i = Implements-enoent
find-Implements rpc_id [] (g ∷ gs) i = elim i [ ]
find-Implements rpc_id (f ∷ fs) [] i = elim i [ ]
find-Implements rpc_id ((k, f) ∷ fs) ((j, g) ∷ gs) (e, i, is) = elim (Bool-cases (eq_ℤ k rpc_id)) [
  | inl this ↦ let that : eq_ℤ j rpc_id ≡ true = rw e at this in rw (this, that) i
  | inr other ↦
      let that : eq_ℤ j rpc_id ≡ false = rw e at other in
      rw (other, that) (find-Implements rpc_id fs gs is)
]

-- An i32 of any pattern is taken off the front.
Takes-i32 : (p : List ℕ) → length p ≡ 4 → Takes (get_int 4) p (signed 32 (of_bytes p))
unfolding get_int
Takes-i32 p four s rest v e =
    let (t, got, left, valid, same) = Takes-bytes p s rest v e in
    (t, rw (rw four at got) refl, left, valid, same)

dispatch_lem :
    (fs : Handlers) (gs : List (ℤ × Service)) (h : Memory) (req : Request) (q : Sent)
    (c : Connection)
    → ImplementsAll fs gs
    → Carries h req q
    → Ready c
    → (d : Connection) × (dispatch fs h req c ≡ done d)
      × (pending d.out ≡ pending c.out ++ frame (owed gs q))
      × Ready d
unfolding dispatch
dispatch_lem fs gs h req (xid, body) c i (same_xid, same_body, v) r =
    let size : req.m.content_size ≡ length body =
      content_size-pending (h, req.m) v ∙ ap length same_body in
    elim (Bool-cases (ltb (length body) 4)) [
      | inl few ↦
          let (d, e, all, ready, on) = refuse_lem xid einval c (omega arith) r in
          let short : ltb req.m.content_size 4 ≡ true = ground (arith, size, few) in
          rw (short, few, same_xid) (d, e, all, ready)
      | inr many ↦
          let p = take 4 body in
          let four : length p ≡ 4 = ground (arith, many, length-take 4 body) in
          let (t, got, left, valid, _) =
            Takes-i32 p four (h, req.m) (drop 4 body) v
              (same_body ∙ sym (take-append-drop 4 body)) in
          let (d, e, all, ready) =
            find-Implements (signed 32 (of_bytes p)) fs gs i xid t c valid r in
          let long : ltb req.m.content_size 4 ≡ false = ground (arith, size, many) in
          rw (long, many, same_xid, got) (d, e, rw left at all, ready)
    ]

dispatch_all_lem :
    (fs : Handlers) (gs : List (ℤ × Service)) (h : Memory) (reqs : List Request) (qs : List Sent)
    (c : Connection)
    → ImplementsAll fs gs
    → CarriesAll h reqs qs
    → Ready c
    → (d : Connection) × (dispatch_all fs h reqs c ≡ done d)
      × (pending d.out ≡ pending c.out ++ replies gs qs)
      × Ready d
unfolding dispatch_all
dispatch_all_lem fs gs h [] [] c i m r = (c, refl, sym (append-nil (pending c.out)), r)
dispatch_all_lem fs gs h [] (q ∷ qs) c i m r = elim m [ ]
dispatch_all_lem fs gs h (req ∷ reqs) [] c i m r = elim m [ ]
dispatch_all_lem fs gs h (req ∷ reqs) (q ∷ qs) c i (here, later) r =
    let (d, e, all, ready) = dispatch_lem fs gs h req q c i here r in
    let (d', e', all', ready') = dispatch_all_lem fs gs h reqs qs d i later ready in
    (
      d',
      rw (e, e') refl,
      all'
          ∙ ap (λ l. l ++ replies gs qs) all
          ∙ append_assoc (pending c.out) (frame (owed gs q)) (replies gs qs),
      ready',
    )

-- Where the handlers run services and reply at once, where what has come in is the packets of some
-- requests, each of less than 2 ^ 31 bytes and with an xid that survives its encoding, and behind
-- them no whole packet, and where no reply is being written: with a round for each request and one
-- more, the packet loop returns, has appended to the outgoing bytes exactly one reply for each
-- request, in the order of the requests and under its xid (EINVAL where the rpc id is missing,
-- ENOENT where no service has it, the service's result otherwise), and has left in the incoming
-- Marshal what stood behind them.
pub serve-replies :
    (junk : ℕ → List ℕ) (fs : Handlers) (gs : List (ℤ × Service)) (qs : List Sent) (rest : List ℕ)
    (fuel : ℕ) (s : State) (c : Connection)
    → ImplementsAll fs gs
    → All Sendable qs
    → Incomplete rest
    → length qs < fuel
    → Valid s
    → pending s ≡ stream qs ++ rest
    → Ready c
    → (t : State) × (d : Connection) × (serve junk fuel fs s c ≡ done (t, d))
      × (pending d.out ≡ pending c.out ++ replies gs qs)
      × (pending t ≡ rest)
      × Valid t
      × Ready d
unfolding serve
serve-replies junk fs gs qs rest fuel s c i ok end lt v e r =
    let (reqs, t, cut, carries, left, valid, same) =
      cut_packets-stream junk qs rest fuel s ok end lt v e in
    let (d, run, all, ready) =
      dispatch_all_lem fs gs t.0 reqs qs c i (subst (λ h. CarriesAll h reqs qs) (sym same) carries)
        r in
    (t, d, rw (cut, run) refl, all, left, valid, ready)
