-- ===== src/Server/Cut.antt =====
-- Where a stream of requests is cut.
use s_rpc.Base.{
  ℕ, ◌≤◌, ◌≡◌, refl, sym, ◌∙◌, ap, ap₂, inl, inr, List, [], ◌∷◌, ◌++◌, arith, length, drop, All,
  append_assoc, length-append, length-drop,
}
use native.Mathlib.Decide.{dec_lt}
use s_rpc.Marshal.Buffer.Read.{list_of_length_0}
use s_rpc.Packet.{frame, request_packet, Incomplete}
use s_rpc.Server.Requests.{Sent, Sendable, stream}

cons_parts : (x y : ℕ) (xs ys : List ℕ) → x ∷ xs ≡ y ∷ ys → (x ≡ y) × (xs ≡ ys)
cons_parts x y xs ys e = (ground (arith, e), ground (arith, e))

-- Two joins of the same list, where the second begins with the longer part.
pub prefix_of :
    (xs ys fs zs : List ℕ)
    → xs ++ ys ≡ fs ++ zs
    → length xs ≤ length fs
    → fs ≡ xs ++ drop (length xs) fs
prefix_of [] ys fs zs e le = refl
prefix_of (x ∷ xs) ys [] zs e le = absurd (omega arith)
prefix_of (x ∷ xs) ys (f ∷ fs) zs e le =
    let (h, t) = cons_parts x f (xs ++ ys) (fs ++ zs) e in
    ap₂ ◌∷◌ (sym h) (prefix_of xs ys fs zs t (omega arith))

same_front :
    (fs zs xs ys : List ℕ)
    → xs ++ ys ≡ fs ++ zs
    → length fs ≤ length xs
    → (xs ≡ fs ++ drop (length fs) xs) × (drop (length fs) xs ++ ys ≡ zs)
same_front [] zs xs ys e le = (refl, e)
same_front (f ∷ fs) zs [] ys e le = absurd (omega arith)
same_front (f ∷ fs) zs (x ∷ xs) ys e le =
    let (h, t) = cons_parts x f (xs ++ ys) (fs ++ zs) e in
    let (a, b) = same_front fs zs xs ys t (omega arith) in (ap₂ ◌∷◌ h a, b)

-- The first part of a stream is some whole packets, and the beginning of one.
pub record Cut (qs : List Sent) (xs ys : List ℕ) : Type 0 where
  pub whole : List Sent
  pub later : List Sent
  pub rest : List ℕ
  pub all : qs ≡ whole ++ later
  pub first : xs ≡ stream whole ++ rest
  pub ahead : rest ++ ys ≡ stream later
  pub incomplete : Incomplete rest

pub Cut-stream :
    (qs : List Sent) (xs ys : List ℕ) → All Sendable qs → xs ++ ys ≡ stream qs → Cut qs xs ys
Cut-stream [] xs ys ok e =
    let none : xs ≡ [] = list_of_length_0 xs (omega (arith, ap length e, length-append xs ys)) in
    record {
      whole = [];
      later = [];
      rest = xs;
      all = refl;
      first = refl;
      ahead = e;
      incomplete = inl (omega (arith, ap length none));
    }
Cut-stream (q ∷ qs) xs ys ok e =
    let p = request_packet q.0 q.1 in
    let f = frame p in
    elim (dec_lt (length xs) (length f)) [
      | yes short ↦ record {
        whole = [];
        later = q ∷ qs;
        rest = xs;
        all = refl;
        first = refl;
        ahead = e;
        incomplete = inr (
          p,
          drop (length xs) f,
          prefix_of xs ys f (stream qs) e (omega arith),
          ok.0.1,
          omega (arith, length-drop (length xs) f, short),
        );
      }
      | no long ↦
          let (a, b) = same_front f (stream qs) xs ys e (omega arith) in
          let c = Cut-stream qs (drop (length f) xs) ys ok.1 b in
          record {
            whole = q ∷ c.whole;
            later = c.later;
            rest = c.rest;
            all = ap (◌∷◌ q) c.all;
            first = a ∙ ap (◌++◌ f) c.first ∙ sym (append_assoc f (stream c.whole) c.rest);
            ahead = c.ahead;
            incomplete = c.incomplete;
          }
    ]
