-- ===== src/Client/Moves.antt =====
-- Each step of a client keeps account of its futures: src/rpc/client.cpp.
use s_rpc.Base.{
  ℕ, suc, ◌+◌, ◌%◌, ◌^◌, ◌<◌, ◌≤◌, ◌≡◌, ◌⊎◌, All, ltb, inl, inr, refl, sym, ◌∙◌, ap, Bool, true,
  false, not, Option, none, some, List, arith, Bool-cases,
}
use mathlib.Core.Path.{subst}
use s_rpc.SparseInt.{signed}
use s_rpc.Base.Int.{ℤ, pos, eq_ℤ}
use s_rpc.Base.Outcome.{done, After, After-then, After-bind, After-self, After-map, verify}
use s_rpc.Marshal.Slice.{read_from_marshal}
use s_rpc.Marshal.Bookmark.{Place, set_bookmark}
use s_rpc.Marshal.Wire.{State, get_bytes, get_v32, get_v64}
use s_rpc.Client.{
  Client, Future, is_connected, ref_copy, settled, expire, finish_timed_wait, notify_ready, release,
  update, find, erase, enter, alive, take_back, give_up, write_head, hand_out, deliver, take_reply,
  connect,
}
use s_rpc.Client.Requests.{signed_small}
use s_rpc.Client.Table.{find_sound}
use s_rpc.Client.Tracked.{
  Tracks, Tracks-leave, Tracks-change, Tracks-enter, owned_changed, owned_others,
}
use s_rpc.Client.Steps.{IsTracked, with_future, IsOthers, Fewer, update-refs}

pub enter-IsTracked :
    (c : Client) (callback : Bool)
    → suc c.xid_counter < 2 ^ 63
    → IsTracked c
    → IsTracked (enter callback c)
unfolding enter
enter-IsTracked c callback lt t =
    let xid : signed 64 c.xid_counter ≡ pos c.allocated =
      signed_small c.xid_counter (omega (arith, lt)) ∙ ap pos t.counted in
    let next : (c.xid_counter + 1) % 2 ^ 64 ≡ suc c.allocated = omega (arith, lt, t.counted) in
    record {
      tracks = rw xid (Tracks-enter c.allocated c.futures c.pending_fu callback t.tracks);
      counted = next;
    }

pub connect-IsTracked :
    (failed : Option ℤ) (c : Client)
    → IsTracked c
    → After (λ r. IsTracked r.1 × Fewer c r.1) (connect failed c)
unfolding connect
connect-IsTracked none c t =
    After-then (λ r. IsTracked r.1 × Fewer c r.1) (verify (not (is_connected c.status))) _
      (λ u. (
        record { tracks = t.tracks; counted = t.counted },
        record { allocated = refl; refs = λ b. omega arith },
      ))
connect-IsTracked (some e) c t =
    After-then (λ r. IsTracked r.1 × Fewer c r.1) (verify (not (is_connected c.status))) _
      (λ u. (t, record { allocated = refl; refs = λ b. omega arith }))

-- A future that is notified and released is settled, and has no more references.
pub release-notify_ready_parts :
    (f g : Future)
    → release (notify_ready f) ≡ done g
    → (g.xid ≡ f.xid) × (settled g ≡ true) × (g.refs ≤ f.refs)
unfolding release notify_ready
release-notify_ready_parts f g w = ground (arith, w)

-- A released future keeps its name, and one reference less.
release-parts :
    (f g : Future)
    → release f ≡ done g
    → (g.xid ≡ f.xid) × (g.refs + 1 ≡ f.refs) × (settled g ≡ settled f)
unfolding release
release-parts f g e = ground (arith, e)

pub expire-parts :
    (f : Future)
    → ((expire f).xid ≡ f.xid)
      × ((expire f).refs ≡ f.refs)
      × (settled (expire f) ≡ false → settled f ≡ false)
unfolding expire
expire-parts f = ground arith

pub finish-parts :
    (f : Future)
    → ((finish_timed_wait f).xid ≡ f.xid)
      × ((finish_timed_wait f).refs ≡ f.refs)
      × (settled (finish_timed_wait f) ≡ false → settled f ≡ false)
unfolding finish_timed_wait
finish-parts f = ground arith

-- A change of one future in place, which keeps the references of the table.
pub change-IsTracked :
    (c : Client) (a : ℕ) (f : Future)
    → IsTracked c
    → a < c.allocated
    → f.xid ≡ (c.futures a).xid
    → All (λ e. 0 < (update c.futures a f e.1).refs) c.pending_fu
    → (0 < f.refs → 0 < (c.futures a).refs)
    → (settled f ≡ false → settled (c.futures a) ≡ false)
    → IsTracked (with_future c a f)
change-IsTracked c a f t lt e owned was s = record {
  tracks =
      Tracks-change c.allocated c.futures c.pending_fu a f t.tracks e lt owned
        (λ p q. (was p, s q));
  counted = t.counted;
}

-- One that leaves the number of references alone.
pub mark-IsTracked :
    (c : Client) (a : ℕ) (f : Future)
    → IsTracked c
    → a < c.allocated
    → f.xid ≡ (c.futures a).xid
    → f.refs ≡ (c.futures a).refs
    → (settled f ≡ false → settled (c.futures a) ≡ false)
    → IsTracked (with_future c a f)
mark-IsTracked c a f t lt e r s =
    change-IsTracked c a f t lt e
      (owned_changed c.futures a f c.pending_fu (λ p. omega (arith, r, p)) t.tracks.owned)
      (λ p. omega (arith, r, p)) s

-- A reference is dropped that is not the table's.
pub drop-IsTracked :
    (c : Client) (a : ℕ) (f : Future)
    → IsTracked c
    → a < c.allocated
    → IsOthers c a
    → release (c.futures a) ≡ done f
    → IsTracked (with_future c a f) × Fewer c (with_future c a f)
drop-IsTracked c a f t lt others e =
    let (x, r, s) = release-parts (c.futures a) f e in
    let owned : All (λ d. 0 < (update c.futures a f d.1).refs) c.pending_fu = elim others [
      | inl away ↦ owned_others c.futures a f c.pending_fu away t.tracks.owned
      | inr two ↦
          owned_changed c.futures a f c.pending_fu (λ p. omega (arith, r, two)) t.tracks.owned
    ] in
    (
      change-IsTracked c a f t lt x owned (λ p. omega (arith, r)) (λ q. sym s ∙ q),
      record { allocated = refl; refs = λ b. update-refs c.futures a f b (omega (arith, r)) },
    )

-- A future that leaves the table, settled or with no reference.
leave-IsTracked :
    (c : Client) (x : ℤ) (a : ℕ) (f : Future)
    → IsTracked c
    → find x c.pending_fu ≡ some a
    → f.xid ≡ (c.futures a).xid
    → (settled f ≡ true) ⊎ (f.refs ≡ 0)
    → Tracks c.allocated (update c.futures a f) (erase x c.pending_fu)
leave-IsTracked c x a f t found e gone =
    let (name, lt) = find_sound c.allocated x c.pending_fu a t.tracks.entries found in
    subst (λ y. Tracks c.allocated (update c.futures a f) (erase y c.pending_fu)) (sym name)
      (Tracks-leave c.allocated c.futures c.pending_fu a f t.tracks (e ∙ t.tracks.named a lt) gone)

-- Where the client is closed, the future is taken back.
take_back-IsTracked :
    (o : Option ℕ) (a : ℕ) (c : Client)
    → find (c.futures a).xid c.pending_fu ≡ o
    → IsTracked c
    → a < c.allocated
    → (c.futures a).refs ≤ 1
    → After IsTracked (take_back o (c.futures a).xid c)
take_back-IsTracked none a c e t lt one = t
take_back-IsTracked (some b) a c e t lt one =
    let x = (c.futures a).xid in
    let (name, _) = find_sound c.allocated x c.pending_fu b t.tracks.entries e in
    let same : a ≡ b = ground (arith, sym (t.tracks.named a lt) ∙ name) in
    let refs : (c.futures b).refs ≤ 1 = subst (λ (k : ℕ). (c.futures k).refs ≤ 1) same one in
    After-bind (λ f. (f.xid ≡ (c.futures b).xid) × (f.refs ≡ 0)) IsTracked (release (c.futures b)) _
      (After-self _ (release (c.futures b))
        (λ f q. let (n, k, _) = release-parts (c.futures b) f q in (n, omega (arith, k, refs))))
      (λ f (n, z). record { tracks = leave-IsTracked c x b f t e n (inr z); counted = t.counted })

pub give_up-IsTracked :
    (a : ℕ) (c : Client)
    → IsTracked c
    → a < c.allocated
    → (c.futures a).refs ≤ 1
    → After IsTracked (give_up a c)
unfolding give_up
give_up-IsTracked a c t lt one =
    After-then IsTracked (alive (c.futures a)) _ (λ u. take_back-IsTracked _ a c refl t lt one)

pub write_head-IsTracked :
    (a : ℕ) (rpc_id : ℤ) (c : Client)
    → IsTracked c
    → After (λ d. IsTracked d × Fewer c d) (write_head a rpc_id c)
unfolding write_head
write_head-IsTracked a rpc_id c t =
    After-then (λ d. IsTracked d × Fewer c d) (set_bookmark 4 c.out) _
      (λ r.
        After-then (λ d. IsTracked d × Fewer c d) (alive (c.futures a)) _
          (λ u. elim (Bool-cases (is_connected c.status)) [
            | inl open_ ↦ rw open_ (rw open_ (unmoved c t))
            | inr shut ↦ rw shut (rw shut (unmoved c t))
          ]))
  where
    unmoved :
        (c : Client)
        → IsTracked c
        → {bm : Option (List Place)} {out : State}
        → let d : Client = record c { bmark = bm; out = out } in IsTracked d × Fewer c d
    unmoved c t = (
      record { tracks = t.tracks; counted = t.counted },
      record { allocated = refl; refs = λ b. omega arith },
    )

-- Only a future that is there is handed out.
pub hand_out-IsTracked :
    (a : ℕ) (c : Client) → IsTracked c → a < c.allocated → After IsTracked (hand_out a c)
unfolding hand_out
hand_out-IsTracked a c t lt = elim (Bool-cases (ltb 0 (c.futures a).refs)) [
  | inr dead ↦ rw dead tt
  | inl there ↦
      let some_refs : 0 < (c.futures a).refs = ground (arith, there) in
      rw there (
        change-IsTracked c a (ref_copy (c.futures a)) t lt refl
          (owned_changed c.futures a (ref_copy (c.futures a)) c.pending_fu (λ p. omega arith)
            t.tracks.owned)
          (λ p. some_refs) (λ s. s))
]

-- A reply, whatever its bytes are.
deliver-IsTracked :
    (o : Option ℕ) (x e : ℤ) (size : ℕ) (c : Client)
    → find x c.pending_fu ≡ o
    → IsTracked c
    → After (λ d. IsTracked d × Fewer c d) (deliver o x e size c)
deliver-IsTracked none x e size c q t = (t, record { allocated = refl; refs = λ b. omega arith })
deliver-IsTracked (some a) x e size c q t =
    let fu = c.futures a in
    let P = λ (d : Client). IsTracked d × Fewer c d in
    After-then P (verify (eq_ℤ fu.xid x)) _ (λ u.
      After-then P (read_from_marshal c.in_.0 fu.reply c.in_.1 size) _ (λ r.
        let f : Future = record fu { error_code = e; reply = r.1 } in
        After-bind (λ g. (g.xid ≡ fu.xid) × (settled g ≡ true) × (g.refs ≤ fu.refs)) P
          (release (notify_ready f)) _
          (After-self _ (release (notify_ready f)) (λ g w. release-notify_ready_parts f g w))
          (λ g (n, s, fewer). (
            record { tracks = leave-IsTracked c x a g t q n (inl s); counted = t.counted },
            record { allocated = refl; refs = λ b. update-refs c.futures a g b fewer },
          ))))

pub take_reply-IsTracked :
    (junk : List ℕ × List ℕ) (c : Client)
    → IsTracked c
    → After (λ d. IsTracked d × Fewer c d) (take_reply junk c)
unfolding take_reply
take_reply-IsTracked junk c t =
    let P = λ (d : Client). IsTracked d × Fewer c d in
    After-then P (get_bytes 4 c.in_) _ (λ p. After-then P (get_v64 junk.0 p.1) _ (λ q.
      After-then P (get_v32 junk.1 q.1) _ (λ r.
        After-map _ P (deliver (find q.0 c.pending_fu) q.0 r.0 _ (record c { in_ = r.1 }))
          (deliver-IsTracked _ q.0 r.0 _ (record c { in_ = r.1 }) refl
            (record { tracks = t.tracks; counted = t.counted }))
          (λ d (k, f). (k, record { allocated = f.allocated; refs = f.refs })))))
