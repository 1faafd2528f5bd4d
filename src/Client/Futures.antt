-- ===== src/Client/Futures.antt =====
-- `Future` by itself: what its flags come to over any steps.
use s_rpc.Base.{◌<◌, ◌≡◌, refl, ◌∙◌, Bool, true, false, arith, ltb}
use s_rpc.Base.Int.{ℤ}
use s_rpc.Base.Outcome.{done}
use s_rpc.Marshal.Buffer.{Marshal}
use s_rpc.Client.{Future, settled, ref_copy, expire, finish_timed_wait, notify_ready, release}

-- Whatever its callback, a referenced future that is notified and released is settled.
pub release-notify_ready :
    (f : Future)
    → 0 < f.refs
    → (g : Future) × (release (notify_ready f) ≡ done g) × (settled g ≡ true) × (g.xid ≡ f.xid)
unfolding notify_ready release
release-notify_ready f o = by_flags f.timed_out f.callback f o refl refl
  where
    by_ready :
        (r b : Bool) (f : Future)
        → 0 < f.refs
        → f.timed_out ≡ true
        → f.callback ≡ b
        → f.ready ≡ r
        → (g : Future) × (release (notify_ready f) ≡ done g) × (settled g ≡ true) × (g.xid ≡ f.xid)
    by_ready true true f o e c r =
        let l : ltb 0 f.refs ≡ true = ground arith in rw (e, r, c, l) (_, refl, refl, refl)
    by_ready true false f o e c r =
        let l : ltb 0 f.refs ≡ true = ground arith in rw (e, r, c, l) (_, refl, refl, refl)
    by_ready false b f o e c r =
        let l : ltb 0 f.refs ≡ true = ground arith in rw (e, r, l) (_, refl, refl, refl)

    by_flags :
        (t b : Bool) (f : Future)
        → 0 < f.refs
        → f.timed_out ≡ t
        → f.callback ≡ b
        → (g : Future) × (release (notify_ready f) ≡ done g) × (settled g ≡ true) × (g.xid ≡ f.xid)
    by_flags false true f o e c =
        let l : ltb 0 f.refs ≡ true = ground arith in rw (e, c, l) (_, refl, refl, refl)
    by_flags false false f o e c =
        let l : ltb 0 f.refs ≡ true = ground arith in rw (e, c, l) (_, refl, refl, refl)
    by_flags true b f o e c = by_ready f.ready b f o e c refl

-- What can happen to a future.
pub data Step : Future → Future → Type 0 where
  expires : (f : Future) → Step f (expire f)
  finishes : (f : Future) → Step f (finish_timed_wait f)
  replied :
      (f : Future) (error_code : ℤ) (reply : Marshal)
      → Step f (notify_ready (record f { error_code = error_code; reply = reply }))
  copied : (f : Future) → Step f (ref_copy f)
  released : (f g : Future) → release f ≡ done g → Step f g

pub data Run : Future → Future → Type 0 where
  stop : (f : Future) → Run f f
  more : (f g h : Future) → Step f g → Run g h → Run f h

-- What no step takes back: `ready`, `timed_out`, and that a future timed out before it was ready.
abbrev pub Keeps : Future → Future → Type 0
Keeps f g =
    (f.ready ≡ true → g.ready ≡ true)
    × (f.timed_out ≡ true → (g.timed_out ≡ true) × (g.ready ≡ f.ready))

Step-Keeps : (f g : Future) → Step f g → Keeps f g
unfolding expire finish_timed_wait notify_ready release
Step-Keeps _ _ (expires f) = (λ r. r, λ t. (refl, refl))
Step-Keeps _ _ (finishes f) = (λ r. ground (arith, r), λ t. (ground (arith, t), ground (arith, t)))
Step-Keeps _ _ (replied f e m) =
    (λ r. ground (arith, r), λ t. (ground (arith, t), ground (arith, t)))
Step-Keeps _ _ (copied f) = (λ r. r, λ t. (t, refl))
Step-Keeps _ _ (released f g e) =
    (λ r. ground (arith, r, e), λ t. (ground (arith, t, e), ground (arith, e)))

-- Along any run of a future's steps (a deadline, at any time; the end of `timed_wait`; a reply or a
-- closed connection with `notify_ready`; `ref_copy`; `release`): once it is ready it stays ready, once
-- it has timed out it stays timed out, and from then on it does not become ready, unless it was ready
-- already.
pub settled_for_good :
    (f g : Future)
    → Run f g
    → (f.ready ≡ true → g.ready ≡ true)
      × (f.timed_out ≡ true → (g.timed_out ≡ true) × (g.ready ≡ f.ready))
settled_for_good _ _ (stop f) = (λ r. r, λ t. (t, refl))
settled_for_good _ _ (more f g h s r) =
    let (ready, timed) = Step-Keeps f g s in
    let (ready', timed') = settled_for_good g h r in
    (λ q. ready' (ready q), λ t. let (a, b) = timed t in let (c, d) = timed' a in (c, d ∙ b))
