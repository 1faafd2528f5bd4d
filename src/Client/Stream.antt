-- ===== src/Client/Stream.antt =====
-- The loop of `TCPClient::handle_read` on a stream of replies.
use s_rpc.Base.{
  ℕ, zero, suc, ◌<◌, ◌≡◌, ◌≢◌, refl, sym, ◌∙◌, ap, false, some, List, [], ◌∷◌, ◌++◌, arith, length,
  append_assoc, All,
}
use mathlib.Core.Path.{subst}
use s_rpc.Base.Outcome.{done}
use s_rpc.Marshal.Wire.Scalars.{Valid, pending}
use s_rpc.Packet.{frame, complete, Incomplete}
use s_rpc.Packet.Complete.{complete-frame, complete_not}
use s_rpc.Client.{Client, find, take_replies}
use s_rpc.Client.Table.{find-erase}
use s_rpc.Client.Replies.{
  Reply, packet, Sendable, stream, Waiting, Answered, Delivered, take_reply_lem,
}

-- A reply, and the address of the future that waits for it.
abbrev pub Due : Type 0
Due = Reply × ℕ

abbrev pub replies_of : List Due → List Reply
replies_of [] = []
replies_of (p ∷ ps) = p.0 ∷ replies_of ps

abbrev pub Expects : Client → Due → Type 0
Expects c p = (find p.0.xid c.pending_fu ≡ some p.1) × Waiting p.0.xid (c.futures p.1)

abbrev pub OneEach : List Due → Type 0
OneEach [] = Unit {0}
OneEach (p ∷ ps) = All (λ q. q.0.xid ≢ p.0.xid) ps × OneEach ps

-- What is still expected after one delivery.
later_expected :
    (p q : Due) (rest : List ℕ) (c d : Client)
    → q.0.xid ≢ p.0.xid
    → Expects c p
    → Expects c q
    → Delivered p.0 p.1 rest c d
    → (q.1 ≢ p.1) × Expects d q
later_expected p q rest c d ne (found, w) (found_q, w_q) v =
    let apart : q.1 ≢ p.1 =
      λ e. ne (sym w_q.same_xid ∙ ap (λ a. (c.futures a).xid) e ∙ w.same_xid) in
    (
      apart,
      (
        ap (find q.0.xid) v.entry_gone ∙ find-erase q.0.xid p.0.xid c.pending_fu ne ∙ found_q,
        subst (Waiting q.0.xid) (sym (v.others q.1 apart)) w_q,
      ),
    )

each_later_expected :
    (p : Due) (ps : List Due) (rest : List ℕ) (c d : Client)
    → All (λ q. q.0.xid ≢ p.0.xid) ps
    → Expects c p
    → All (Expects c) ps
    → Delivered p.0 p.1 rest c d
    → All (λ q. q.1 ≢ p.1) ps × All (Expects d) ps
each_later_expected p [] rest c d ne w ws v = (tt, tt)
each_later_expected p (q ∷ ps) rest c d ne w ws v =
    let (a, e) = later_expected p q rest c d ne.0 w ws.0 v in
    let (as_, es) = each_later_expected p ps rest c d ne.1 w ws.1 v in ((a, as_), (e, es))

-- A client whose incoming bytes are the replies of some requests, each of less than 2 ^ 31 bytes,
-- with xids that survive their encoding and differ, and behind them no whole packet, and whose
-- table has for each of them a future that has not timed out and is referenced: with a round for
-- each reply and one more, the loop of `handle_read` returns; each of these futures is then ready
-- with its reply's error code and exactly its results, every other future is as before, and what
-- stood behind the replies is left.
pub take_replies-stream :
    (junk : ℕ → List ℕ × List ℕ) (ps : List Due) (rest : List ℕ) (fuel : ℕ) (c : Client)
    → All Sendable (replies_of ps)
    → Incomplete rest
    → length ps < fuel
    → Valid c.in_
    → pending c.in_ ≡ stream (replies_of ps) ++ rest
    → OneEach ps
    → All (Expects c) ps
    → (d : Client) × (take_replies junk fuel c ≡ done d)
      × All (λ p. Answered c.in_.0 p.0 (d.futures p.1)) ps
      × ((b : ℕ) → All (λ p. p.1 ≢ b) ps → d.futures b ≡ c.futures b)
      × (pending d.in_ ≡ rest)
      × Valid d.in_
      × (d.in_.0 ≡ c.in_.0)
unfolding take_replies
take_replies-stream junk ps rest zero c ok end lt v e one w = absurd (omega arith)
take_replies-stream junk [] rest (suc fuel) c ok end lt v e one w =
    let no_more : complete c.in_ ≡ false = complete_not c.in_ v (rw e end) in
    (c, rw no_more refl, tt, (λ b t. refl), e, v, refl)
take_replies-stream junk (p ∷ ps) rest (suc fuel) c ok end lt v e one w =
    let behind = stream (replies_of ps) ++ rest in
    let next : pending c.in_ ≡ frame (packet p.0) ++ behind =
      e ∙ append_assoc (frame (packet p.0)) (stream (replies_of ps)) rest in
    let whole = complete-frame c.in_ (packet p.0) behind v next (ok.0.2) in
    let (d, taken, del) = take_reply_lem (junk fuel) p.0 p.1 behind c ok.0 v next w.0.0 w.0.1 in
    let (apart, expected) = each_later_expected p ps behind c d one.0 w.0 w.1 del in
    let (f, loop, answered, others, left, valid, memory) =
      take_replies-stream junk ps rest fuel d ok.1 end (omega arith) del.valid del.left one.1
        expected in
    let first : Answered c.in_.0 p.0 (f.futures p.1) =
      subst (λ h. Answered h p.0 (f.futures p.1)) del.memory
        (subst (Answered d.in_.0 p.0) (sym (others p.1 apart)) del.answered) in
    (
      f,
      rw (whole, taken, loop) refl,
      (first, subst (λ h. All (λ q. Answered h q.0 (f.futures q.1)) ps) del.memory answered),
      (λ b ne. others b ne.1 ∙ del.others b (λ q. ne.0 (sym q))),
      left,
      valid,
      memory ∙ del.memory,
    )
