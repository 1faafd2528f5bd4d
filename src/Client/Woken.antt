-- ===== src/Client/Woken.antt =====
-- What holds of a client after any sequence of steps.
use mathlib.Core.Path.{subst}
use s_rpc.Base.{
  ℕ, ◌∙◌, ◌<◌, ◌≤◌, ◌≡◌, refl, sym, true, false, none, some, List, [], ◌∷◌, Bool, arith, ==_refl,
}
use s_rpc.Base.Int.{ℤ}
use s_rpc.Base.Outcome.{Outcome, done, After, After-bind, After-self, After-map}
use s_rpc.Marshal.Wire.{State}
use s_rpc.Client.{
  Client, Future, settled, new_client, enter, give_up, write_head, hand_out, end_request, expire,
  finish_timed_wait, take_reply, find, close, invalidate_pending_futures, fail_all, closed, connect,
  enotconn, update, release, notify_ready,
}
use s_rpc.Client.Emptied.{fail_all-settled}
use s_rpc.Client.Steps.{
  IsTracked, Fewer, with_future, update-refs, Progress, looking, handing_out, Step, enters, looks,
  gives_up, writes_head, hands_out, connects, ends, replies, expires, finishes, drops, closes, Run,
  stop, more,
}
use s_rpc.Client.Moves.{
  enter-IsTracked, give_up-IsTracked, write_head-IsTracked, hand_out-IsTracked, connect-IsTracked,
  take_reply-IsTracked, mark-IsTracked, drop-IsTracked, expire-parts, finish-parts,
  release-notify_ready_parts,
}

-- `close` returns, and every future that is still referenced is ready or timed out afterwards.
close-settled :
    (c : Client)
    → IsTracked c
    → (d : Client) × (close c ≡ done d)
      × IsTracked d
      × (d.pending_fu ≡ [])
      × ((a : ℕ) → a < d.allocated → 0 < (d.futures a).refs → settled (d.futures a) ≡ true)
unfolding close invalidate_pending_futures
close-settled c t =
    let (gs, e, tracks, woken) = fail_all-settled c.allocated c.futures c.pending_fu t.tracks in
    let d : Client = record c { status = closed; futures = gs; pending_fu = [] } in
    (d, rw e refl, record { tracks = tracks; counted = t.counted }, refl, woken)

done-value : {A : Type 0} (P : A → Type 0) (m : Outcome A) (a : A) → After P m → m ≡ done a → P a
done-value P m a p e = rw e at p

same-value : {A : Type 0} (m : Outcome A) (a b : A) → m ≡ done a → m ≡ done b → a ≡ b
same-value m a b e f = ground (arith, sym e ∙ f)

-- The future of the thread within `begin_request` has the table's reference at most.
abbrev InHand : Client → Progress → Type 0
InHand c none = Unit {0}
InHand c (some (stage, a)) = (a < c.allocated) × ((c.futures a).refs ≤ 1)

abbrev Holds : Client × Progress → Type 0
Holds s = IsTracked s.0 × InHand s.0 s.1

InHand-Fewer : (c d : Client) (p : Progress) → Fewer c d → InHand c p → InHand d p
InHand-Fewer c d none f h = tt
InHand-Fewer c d (some (stage, a)) f h =
    (omega (arith, f.allocated, h.0), omega (arith, f.refs a, h.1))

Holds-Fewer : (c d : Client) (p : Progress) → IsTracked d × Fewer c d → InHand c p → Holds (d, p)
Holds-Fewer c d p (t, f) h = (t, InHand-Fewer c d p f h)

-- A future is marked in place.
Holds-mark :
    (c : Client) (p : Progress) (a : ℕ) (f : Future)
    → IsTracked (with_future c a f)
    → f.refs ≡ (c.futures a).refs
    → InHand c p
    → Holds (with_future c a f, p)
Holds-mark c p a f t r h =
    Holds-Fewer c (with_future c a f) p
      (t, record { allocated = refl; refs = λ b. update-refs c.futures a f b (omega (arith, r)) }) h

fail_all-refs :
    (es : List (ℤ × ℕ)) (fs : ℕ → Future)
    → After (λ gs. (b : ℕ) → (gs b).refs ≤ (fs b).refs) (fail_all es fs)
unfolding fail_all
fail_all-refs [] fs = λ b. omega arith
fail_all-refs ((k, a) ∷ es) fs =
    let f : Future = record (fs a) { error_code = enotconn } in
    let P = λ (gs : ℕ → Future). (b : ℕ) → (gs b).refs ≤ (fs b).refs in
    After-bind (λ g. g.refs ≤ (fs a).refs) P (release (notify_ready f)) _
      (After-self _ (release (notify_ready f)) (λ g w. (release-notify_ready_parts f g w).2))
      (λ g fewer.
        After-map _ P (fail_all es (update fs a g)) (fail_all-refs es (update fs a g))
          (λ gs le b. omega (arith, le b, update-refs fs a g b fewer)))

close-Fewer : (c : Client) → After (Fewer c) (close c)
unfolding close invalidate_pending_futures
close-Fewer c =
    After-bind (λ gs. (b : ℕ) → (gs b).refs ≤ (c.futures b).refs) (Fewer c)
      (fail_all c.pending_fu c.futures) _ (fail_all-refs c.pending_fu c.futures)
      (λ gs le. record { allocated = refl; refs = le })

enter-InHand :
    (c : Client) (callback : Bool) → InHand (enter callback c) (some (looking, c.allocated))
unfolding enter
enter-InHand c callback = (omega arith, rw (==_refl c.allocated) (omega arith))

Step-Holds : (s t : Client × Progress) → Step s t → Holds s → Holds t
Step-Holds _ _ (enters c callback lt) (t, h) =
    (enter-IsTracked c callback lt t, enter-InHand c callback)
Step-Holds _ _ (looks c a) (t, h) = (t, h)
Step-Holds _ _ (gives_up c a d e) (t, h) =
    (done-value IsTracked (give_up a c) d (give_up-IsTracked a c t h.0 h.1) e, tt)
Step-Holds _ _ (writes_head c a rpc_id d e) (t, h) =
    Holds-Fewer c d (some (handing_out, a))
      (done-value _ (write_head a rpc_id c) d (write_head-IsTracked a rpc_id c t) e) h
Step-Holds _ _ (hands_out c a d e) (t, h) =
    (done-value IsTracked (hand_out a c) d (hand_out-IsTracked a c t h.0) e, tt)
Step-Holds _ _ (connects c p failed e d q) (t, h) =
    Holds-Fewer c d p
      (done-value (λ r. IsTracked r.1 × Fewer c r.1) (connect failed c) (e, d)
        (connect-IsTracked failed c t) q)
      h
Step-Holds _ _ (ends c p) (t, h) =
    Holds-Fewer c (end_request c) p
      (unfold end_request in
        (
          record { tracks = t.tracks; counted = t.counted },
          record { allocated = refl; refs = λ b. omega arith },
        ))
      h
Step-Holds _ _ (replies c p junk d e) (t, h) =
    Holds-Fewer c d p (done-value _ (take_reply junk c) d (take_reply-IsTracked junk c t) e) h
Step-Holds _ _ (expires c p a lt) (t, h) =
    let (x, r, s) = expire-parts (c.futures a) in
    Holds-mark c p a _ (mark-IsTracked c a (expire (c.futures a)) t lt x r s) r h
Step-Holds _ _ (finishes c p a lt) (t, h) =
    let (x, r, s) = finish-parts (c.futures a) in
    Holds-mark c p a _ (mark-IsTracked c a (finish_timed_wait (c.futures a)) t lt x r s) r h
Step-Holds _ _ (drops c p a f lt others e) (t, h) =
    Holds-Fewer c (with_future c a f) p (drop-IsTracked c a f t lt others e) h
Step-Holds _ _ (closes c p d e) (t, h) =
    let (d', e', t', _, _) = close-settled c t in
    Holds-Fewer c d p
      (
        subst IsTracked (same-value (close c) d' d e' e) t',
        done-value (Fewer c) (close c) d (close-Fewer c) e,
      )
      h

Run-Holds : (s t : Client × Progress) → Run s t → Holds s → Holds t
Run-Holds _ _ (stop s) h = h
Run-Holds _ _ (more s t u e r) h = Run-Holds t u r (Step-Holds s t e h)

new_client-IsTracked : (in_ out : State) (fs : ℕ → Future) → IsTracked (new_client in_ out fs)
new_client-IsTracked in_ out fs = record {
  tracks = record {
    named = λ a lt. absurd (omega arith);
    entries = tt;
    unique = tt;
    owned = tt;
    kept = λ a lt. absurd (omega arith);
  };
  counted = refl;
}

reached-IsTracked :
    (in_ out : State) (fs : ℕ → Future) (c : Client) (p : Progress)
    → Run (new_client in_ out fs, none) (c, p)
    → IsTracked c
reached-IsTracked in_ out fs c p r = (Run-Holds _ (c, p) r (new_client-IsTracked in_ out fs, tt)).0

-- From a new client, after any run of the steps of `Step`: less than 2 ^ 63 requests begun, by one
-- thread at a time, each in four stretches (the future entered; the second look at the status; the
-- packet's head written; the caller's reference taken, or the entry taken back) with steps of other
-- threads in between, closes included; connections made; requests ended; replies of any bytes;
-- deadlines at any time; references dropped that are not the table's, the last one included; closes.
-- No step uses a deleted future. Then a future that is still referenced and is neither ready nor timed
-- out stands in the client's table under its own xid.
pub no_future_lost :
    (in_ out : State) (fs : ℕ → Future) (c : Client) (p : Progress) (a : ℕ)
    → Run (new_client in_ out fs, none) (c, p)
    → a < c.allocated
    → 0 < (c.futures a).refs
    → settled (c.futures a) ≡ false
    → find (c.futures a).xid c.pending_fu ≡ some a
no_future_lost in_ out fs c p a r lt o s =
    let t = (reached-IsTracked in_ out fs c p r).tracks in rw (t.named a lt) (t.kept a lt o s)
