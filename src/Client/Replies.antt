-- ===== src/Client/Replies.antt =====
-- The packet loop of `TCPClient::handle_read`: each reply goes to the future of its xid.
use s_rpc.Base.{
  take-front, drop-front, ℕ, ◌+◌, ◌%◌, ◌^◌, ◌≤◌, ◌<◌, ◌≡◌, ◌≢◌, refl, sym, ◌∙◌, ap, true, false,
  none, some, List, [], ◌∷◌, ◌++◌, Bool, arith, length, take, drop, ==_refl, append_assoc,
  length-append, ◌==◌, ltb,
}
use mathlib.Core.Path.{subst}
use s_rpc.Base.Int.{ℤ, eq_ℤ}
use s_rpc.Base.Outcome.{done}
use s_rpc.SparseInt.{magnitude, val_size}
use s_rpc.Marshal.Memory.{Memory}
use s_rpc.Marshal.Buffer.{Marshal, IsValid, contents, empty_marshal}
use s_rpc.Marshal.Slice.Whole.{read_from_marshal_lem}
use s_rpc.Marshal.Wire.{State, bytes_of}
use s_rpc.Marshal.Wire.Scalars.{Valid, pending, length-bytes_of}
use s_rpc.Marshal.Wire.Sparse.{sent, length-sent}
use s_rpc.Packet.{frame, reply_packet}
use s_rpc.Packet.Complete.{size_t_of-bytes_of}
use s_rpc.Packet.Reading.{Survives, Takes-bytes, Takes-v32, Takes-v64}
use s_rpc.Client.{
  Client, Future, update, find, erase, notify_ready, release, results_size, deliver, take_reply,
}

-- A reply as it was sent.
pub record Reply : Type 0 where
  pub xid : ℤ
  pub error_code : ℤ
  pub results : List ℕ

abbrev pub packet : Reply → List ℕ
packet r = reply_packet r.xid r.error_code r.results

abbrev pub Sendable : Reply → Type 0
Sendable r = Survives r.xid × (magnitude r.error_code < 2 ^ 31) × (length (packet r) < 2 ^ 31)

abbrev pub stream : List Reply → List ℕ
stream [] = []
stream (r ∷ rs) = frame (packet r) ++ stream rs

-- A future that waits for its reply, and one that has it.
pub record Waiting (xid : ℤ) (f : Future) : Type 0 where
  pub same_xid : f.xid ≡ xid
  pub empty : f.reply ≡ empty_marshal
  pub in_time : f.timed_out ≡ false
  pub owned : 0 < f.refs

pub record Answered (h : Memory) (r : Reply) (f : Future) : Type 0 where
  pub ready : f.ready ≡ true
  pub error_code : f.error_code ≡ r.error_code
  pub valid : IsValid h f.reply
  pub results : contents h f.reply.chunks ≡ r.results

-- The size that is left for the results is theirs.
results_size_lem :
    (r : Reply)
    → Sendable r
    → results_size (bytes_of 4 (length (packet r) % 2 ^ 32)) r.xid r.error_code ≡ length r.results
results_size_lem r ((h, _), small, fits) =
    let n = length (packet r) in
    let a : length (packet r) ≡ val_size r.xid + val_size r.error_code + length r.results = omega (
      arith,
      length-append (sent r.xid) (sent r.error_code ++ r.results),
      length-append (sent r.error_code) r.results,
      length-sent r.xid h,
      length-sent r.error_code (omega (arith, small)),
    ) in
    rw (size_t_of-bytes_of n fits) (omega (arith, a, fits))

eq_ℤ_refl : (a : ℤ) → eq_ℤ a a ≡ true
eq_ℤ_refl a = ground arith

-- A future in time that is notified is ready, and keeps the rest.
notified :
    (f : Future)
    → f.timed_out ≡ false
    → 0 < f.refs
    → (g : Future) × (release (notify_ready f) ≡ done g)
      × (g.ready ≡ true)
      × (g.error_code ≡ f.error_code)
      × (g.reply ≡ f.reply)
unfolding notify_ready release
notified f e o = notified_parts f.callback f e o refl
  where
    notified_parts :
        (b : Bool) (f : Future)
        → f.timed_out ≡ false
        → 0 < f.refs
        → f.callback ≡ b
        → (g : Future) × (release (notify_ready f) ≡ done g)
          × (g.ready ≡ true)
          × (g.error_code ≡ f.error_code)
          × (g.reply ≡ f.reply)
    notified_parts true f e o c =
        let l : ltb 0 f.refs ≡ true = ground arith in rw (e, c, l) (_, refl, refl, refl, refl)
    notified_parts false f e o c =
        let l : ltb 0 f.refs ≡ true = ground arith in rw (e, c, l) (_, refl, refl, refl, refl)

-- What one reply comes to: its future `a` is answered, its entry is gone, and nothing else is changed.
pub record Delivered (r : Reply) (a : ℕ) (rest : List ℕ) (c d : Client) : Type 0 where
  pub answered : Answered d.in_.0 r (d.futures a)
  pub entry_gone : d.pending_fu ≡ erase r.xid c.pending_fu
  pub others : (b : ℕ) → b ≢ a → d.futures b ≡ c.futures b
  pub left : pending d.in_ ≡ rest
  pub valid : Valid d.in_
  pub memory : d.in_.0 ≡ c.in_.0

-- The size, the xid and the error code are taken off, whoever waits for the reply.
reply_head :
    (junk : List ℕ × List ℕ) (r : Reply) (rest : List ℕ) (c : Client)
    → Sendable r
    → Valid c.in_
    → pending c.in_ ≡ frame (packet r) ++ rest
    → (z : State) × (take_reply junk c
        ≡ deliver
            (find r.xid c.pending_fu)
            r.xid
            r.error_code
            (length r.results)
            (record c { in_ = z }))
      × (pending z ≡ r.results ++ rest)
      × Valid z
      × (z.0 ≡ c.in_.0)
unfolding take_reply
reply_head junk r rest c ok v e =
    let (survives, small, fits) = ok in
    let n = length (packet r) in
    let size = bytes_of 4 (n % 2 ^ 32) in
    let behind = r.results ++ rest in
    let assoc : frame (packet r) ++ rest ≡ size ++ (sent r.xid ++ (sent r.error_code ++ behind)) =
      append_assoc size (packet r) rest
      ∙ ap (◌++◌ size) (append_assoc (sent r.xid) (sent r.error_code ++ r.results) rest)
      ∙ ap (λ l. size ++ (sent r.xid ++ l)) (append_assoc (sent r.error_code) r.results rest) in
    let (t, got, left, valid, same) = Takes-bytes size c.in_ _ v (e ∙ assoc) in
    let (u, got_x, left_x, valid_x, same_x) = Takes-v64 r.xid junk.0 survives t _ valid left in
    let (z, got_e, left_e, valid_e, same_e) =
      Takes-v32 r.error_code junk.1 small u behind valid_x left_x in
    (
      z,
      rw (rw (length-bytes_of 4 (n % 2 ^ 32)) at got, got_x, got_e, results_size_lem r ok) refl,
      left_e,
      valid_e,
      same_e ∙ same_x ∙ same,
    )

pub take_reply_lem :
    (junk : List ℕ × List ℕ) (r : Reply) (a : ℕ) (rest : List ℕ) (c : Client)
    → Sendable r
    → Valid c.in_
    → pending c.in_ ≡ frame (packet r) ++ rest
    → find r.xid c.pending_fu ≡ some a
    → Waiting r.xid (c.futures a)
    → (d : Client) × (take_reply junk c ≡ done d) × Delivered r a rest c d
take_reply_lem junk r a rest c ok v e found w =
    let n = length r.results in
    let (z, taken_off, left_e, valid_e, same) = reply_head junk r rest c ok v e in
    let enough : n ≤ length (contents z.0 z.1.chunks) =
      omega (arith, ap length left_e, length-append r.results rest) in
    let (m, in_, cut, taken, kept, valid_m, valid_in) =
      read_from_marshal_lem z.0 z.1 n valid_e enough in
    let fu : Future = record (c.futures a) { error_code = r.error_code; reply = m } in
    let (g, sent_on, ready, code, reply) = notified fu w.in_time w.owned in
    let same_xid : eq_ℤ (c.futures a).xid r.xid ≡ true = rw w.same_xid (eq_ℤ_refl r.xid) in
    let results : contents z.0 m.chunks ≡ r.results =
      taken ∙ ap (take n) left_e ∙ take-front r.results rest in
    let d : Client = record c {
      in_ = (z.0, in_);
      pending_fu = erase r.xid c.pending_fu;
      futures = update c.futures a g;
    } in
    (
      d,
      taken_off ∙ rw (found, same_xid, w.empty, cut, sent_on) refl,
      record {
        answered = rw (==_refl a) (record {
          ready = ready;
          error_code = code;
          valid = subst (λ x. IsValid z.0 x) (sym reply) valid_m;
          results = ap (λ (x : Marshal). contents z.0 x.chunks) reply ∙ results;
        });
        entry_gone = refl;
        others = λ b ne. let other : b == a ≡ false = ground arith in rw other refl;
        left = kept ∙ ap (drop n) left_e ∙ drop-front r.results rest;
        valid = valid_in;
        memory = same;
      },
    )

-- Where the incoming bytes are a reply of less than 2 ^ 31 bytes, with an error code of 32 bits and an
-- xid that survives its encoding, and what follows it, and where no future has the xid in the table,
-- one round of the loop of `handle_read` returns and takes off its size, its xid and its error code
-- only: its results stay in front of what follows, and the futures and the table are as before.
pub take_reply_lost :
    (junk : List ℕ × List ℕ) (r : Reply) (rest : List ℕ) (c : Client)
    → Sendable r
    → Valid c.in_
    → pending c.in_ ≡ frame (packet r) ++ rest
    → find r.xid c.pending_fu ≡ none
    → (d : Client) × (take_reply junk c ≡ done d)
      × (pending d.in_ ≡ r.results ++ rest)
      × (d.futures ≡ c.futures)
      × (d.pending_fu ≡ c.pending_fu)
take_reply_lost junk r rest c ok v e missing =
    let (z, taken_off, left, _, _) = reply_head junk r rest c ok v e in
    (record c { in_ = z }, taken_off ∙ rw missing refl, left, refl, refl)
