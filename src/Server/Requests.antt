-- ===== src/Server/Requests.antt =====
-- The loop of `TCPConnection::handle_read` that cuts the stream into requests.
use s_rpc.Base.{
  take-front, drop-front, ℕ, zero, suc, ◌%◌, ◌^◌, ◌≤◌, ◌<◌, ◌≡◌, refl, sym, ◌∙◌, ap, false, List,
  [], ◌∷◌, ◌++◌, arith, length, take, drop, append_assoc, length-append, All,
}
use mathlib.Core.Path.{subst}
use s_rpc.Base.Int.{ℤ}
use s_rpc.Base.Outcome.{done}
use s_rpc.Marshal.Memory.{Memory}
use s_rpc.Marshal.Buffer.{IsValid, contents}
use s_rpc.Marshal.Slice.Whole.{read_from_marshal_lem}
use s_rpc.Marshal.Wire.{State, bytes_of}
use s_rpc.Marshal.Wire.Scalars.{Valid, pending, length-bytes_of}
use s_rpc.Packet.{complete, frame, request_packet, Incomplete}
use s_rpc.Packet.Complete.{complete-frame, complete_not, size_t_of-bytes_of}
use s_rpc.Packet.Reading.{Survives, Takes-bytes, Takes-v64}
use s_rpc.Server.{Request, cut_packet, cut_packets}

-- A request as it was sent: its xid and what follows it.
abbrev pub Sent : Type 0
Sent = ℤ × List ℕ

abbrev pub Sendable : Sent → Type 0
Sendable q = Survives q.0 × (length (request_packet q.0 q.1) < 2 ^ 31)

abbrev pub stream : List Sent → List ℕ
stream [] = []
stream (q ∷ qs) = frame (request_packet q.0 q.1) ++ stream qs

-- A request object holds what was sent.
abbrev pub Carries : Memory → Request → Sent → Type 0
Carries h req q = (req.xid ≡ q.0) × (contents h req.m.chunks ≡ q.1) × IsValid h req.m

abbrev pub CarriesAll : Memory → List Request → List Sent → Type 0
CarriesAll h [] [] = Unit {0}
CarriesAll h [] (q ∷ qs) = ⊥
CarriesAll h (r ∷ rs) [] = ⊥
CarriesAll h (r ∷ rs) (q ∷ qs) = Carries h r q × CarriesAll h rs qs

-- One packet: a request that carries what was sent, and the rest of the stream.
cut_packet_lem :
    (junk : List ℕ) (q : Sent) (rest : List ℕ) (s : State)
    → Sendable q
    → Valid s
    → pending s ≡ frame (request_packet q.0 q.1) ++ rest
    → (req : Request) × (t : State) × (cut_packet junk s ≡ done (req, t))
      × Carries s.0 req q
      × (pending t ≡ rest)
      × Valid t
      × (t.0 ≡ s.0)
unfolding cut_packet
cut_packet_lem junk (xid, body) rest s (survives, small) v e =
    let p = request_packet xid body in
    let n = length p in
    let size = bytes_of 4 (n % 2 ^ 32) in
    let (t, got, left, valid, same) =
      Takes-bytes size s (p ++ rest) v (e ∙ append_assoc size p rest) in
    let enough : n ≤ length (contents t.0 t.1.chunks) =
      omega (arith, ap length left, length-append p rest) in
    let (m, in_, cut, taken, kept, valid_m, valid_in) =
      read_from_marshal_lem t.0 t.1 n valid enough in
    let packet : contents t.0 m.chunks ≡ p = taken ∙ ap (take n) left ∙ take-front p rest in
    let (u, read, body_left, valid_u, same_u) =
      Takes-v64 xid junk survives (t.0, m) body valid_m packet in
    let memory : u.0 ≡ s.0 = same_u ∙ same in
    (
      record { xid = xid; m = u.1 },
      (u.0, in_),
      rw (rw (length-bytes_of 4 (n % 2 ^ 32)) at got, size_t_of-bytes_of n small, cut, read) refl,
      (
        refl,
        subst (λ h. contents h u.1.chunks ≡ body) memory body_left,
        subst (λ h. IsValid h u.1) memory valid_u,
      ),
      ap (λ h. contents h in_.chunks) same_u ∙ kept ∙ ap (drop n) left ∙ drop-front p rest,
      subst (λ h. IsValid h in_) (sym same_u) valid_in,
      memory,
    )

-- A valid Marshal that holds the packets of requests, each of less than 2 ^ 31 bytes and with an xid
-- that survives its encoding, and behind them no whole packet: with a round for each request and one
-- more, the loop of `handle_read` gives these requests, in order and each with its xid and exactly its
-- own bytes, and leaves what stood behind them.
pub cut_packets-stream :
    (junk : ℕ → List ℕ) (qs : List Sent) (rest : List ℕ) (fuel : ℕ) (s : State)
    → All Sendable qs
    → Incomplete rest
    → length qs < fuel
    → Valid s
    → pending s ≡ stream qs ++ rest
    → (reqs : List Request) × (t : State) × (cut_packets junk fuel s ≡ done (reqs, t))
      × CarriesAll s.0 reqs qs
      × (pending t ≡ rest)
      × Valid t
      × (t.0 ≡ s.0)
unfolding cut_packets
cut_packets-stream junk qs rest zero s ok end lt v e = absurd (omega arith)
cut_packets-stream junk [] rest (suc fuel) s ok end lt v e =
    let no_more : complete s ≡ false = complete_not s v (rw e end) in
    ([], s, rw no_more refl, tt, e, v, refl)
cut_packets-stream junk (q ∷ qs) rest (suc fuel) s ok end lt v e =
    let p = request_packet q.0 q.1 in
    let next : pending s ≡ frame p ++ (stream qs ++ rest) =
      e ∙ append_assoc (frame p) (stream qs) rest in
    let whole = complete-frame s p (stream qs ++ rest) v next (ok.0.1) in
    let (req, t, cut, carries, left, valid, same) =
      cut_packet_lem (junk fuel) q (stream qs ++ rest) s ok.0 v next in
    let (reqs, u, loop, all, left', valid', same') =
      cut_packets-stream junk qs rest fuel t ok.1 end (omega arith) valid left in
    (
      req ∷ reqs,
      u,
      rw (whole, cut, loop) refl,
      (carries, subst (λ h. CarriesAll h reqs qs) same all),
      left',
      valid',
      same' ∙ same,
    )
