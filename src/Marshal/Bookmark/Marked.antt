-- ===== src/Marshal/Bookmark/Marked.antt =====
-- A bookmark set, and bytes written behind it.
use s_rpc.Base.{
  All, take-front, drop-front, ℕ, suc, ◌+◌, ◌%◌, ◌^◌, ◌<◌, ◌≡◌, refl, sym, ◌∙◌, ap, ap₂, List, [],
  ◌∷◌, ◌++◌, arith, length, map, true, ◌==◌, append_assoc, append-nil, take, length-append, drop,
}
use s_rpc.Base.Outcome.{Outcome, done, ◌>>=◌}
use s_rpc.Marshal.Buffer.{contents, content_size_slow, write, assert_write}
use s_rpc.Marshal.Buffer.Write.{
  content_size_slow-contents, contents-write, write-IsValid, assert_write-write,
}
use s_rpc.Marshal.Wire.{State, put_bytes}
use s_rpc.Marshal.Wire.Scalars.{Valid, pending}
use s_rpc.Marshal.Bookmark.{Place, reserve, set_bookmark}
use s_rpc.Marshal.Bookmark.Places.{places, byte_at, contents-places, map-append_lem}
use s_rpc.Marshal.Bookmark.Reserve.{reserve_lem, write_chain-places}

-- Writes one behind another: what the stream operators come to.
abbrev pub put_all : List (List ℕ) → State → Outcome State
put_all [] s = done s
put_all (p ∷ ps) s = assert_write s.0 s.1 p >>= put_all ps

-- What they leave, where the assert of each holds.
abbrev pub written : List (List ℕ) → State → State
written [] s = s
written (p ∷ ps) s = written ps (put_bytes p s)

-- Of byte strings none of which is empty.
abbrev pub NoneEmpty : List (List ℕ) → Type 0
NoneEmpty ps = All (λ p. 0 < length p) ps

pub put_all-written :
    (ps : List (List ℕ)) (s : State) → Valid s → NoneEmpty ps → put_all ps s ≡ done (written ps s)
put_all-written [] s v some = refl
put_all-written (p ∷ ps) s v some =
    rw (assert_write-write s.0 s.1 p v some.0)
      (put_all-written ps (put_bytes p s) (write-IsValid s.0 s.1 p v) some.1)

abbrev pub join : List (List ℕ) → List ℕ
join [] = []
join (p ∷ ps) = p ++ join ps

-- A Marshal of which `before` waits, and behind it the bookmark `bm` and the bytes `behind`.
pub record Marked (before : List ℕ) (bm : List Place) (behind : List ℕ) (s : State) : Type 0 where
  pub front : List Place
  pub back : List Place
  pub valid : Valid s
  pub stands : places s.1.chunks ≡ front ++ (bm ++ back)
  pub bytes_front : map (byte_at s.0) front ≡ before
  pub bytes_back : map (byte_at s.0) back ≡ behind

length-map_lem : (f : Place → ℕ) (xs : List Place) → length (map f xs) ≡ length xs
length-map_lem f [] = refl
length-map_lem f (x ∷ xs) = ap suc (length-map_lem f xs)

-- Equal joins whose first parts are as long have equal parts.
cut : (a b c d : List ℕ) → length a ≡ length c → a ++ b ≡ c ++ d → (a ≡ c) × (b ≡ d)
cut a b c d l e = (
  sym (take-front a b) ∙ ap (take (length a)) e ∙ rw l (take-front c d),
  sym (drop-front a b) ∙ ap (drop (length a)) e ∙ rw l (drop-front c d),
)

pub map-three :
    (f : Place → ℕ) (xs ys zs : List Place)
    → map f (xs ++ (ys ++ zs)) ≡ map f xs ++ (map f ys ++ map f zs)
map-three f xs ys zs =
    map-append_lem f xs (ys ++ zs) ∙ ap (◌++◌ (map f xs)) (map-append_lem f ys zs)

-- What waits in a marked Marshal.
Marked-pending :
    (before : List ℕ) (bm : List Place) (behind : List ℕ) (s : State)
    → Marked before bm behind s
    → pending s ≡ before ++ (map (byte_at s.0) bm ++ behind)
Marked-pending before bm behind s k =
    contents-places s.0 s.1.chunks
    ∙ ap (map (byte_at s.0)) k.stands
    ∙ map-three (byte_at s.0) k.front bm k.back
    ∙ ap₂ (λ x y. x ++ (map (byte_at s.0) bm ++ y)) k.bytes_front k.bytes_back

-- `set_bookmark` marks a Marshal.
pub set_bookmark-Marked :
    (n : ℕ) (s : State)
    → Valid s
    → s.1.write_cnt ≡ 0
    → (t : State) × (bm : List Place) × (set_bookmark n s ≡ done (t, bm))
      × (length bm ≡ n)
      × Marked (pending s) bm [] t
      × (t.1.write_cnt ≡ 0)
unfolding set_bookmark
set_bookmark-Marked n s v z =
    let r = reserve n s.0 s.1.chunks in
    let (stands, l, same, chain, apart) = reserve_lem n s.0 s.1.chunks v.chain v.apart in
    let zero_cnt : s.1.write_cnt == 0 ≡ true = ground arith in
    let t : State = (r.0, record s.1 { chunks = r.1; content_size = s.1.content_size + n }) in
    let all : contents r.0 r.1 ≡ contents s.0 s.1.chunks ++ map (byte_at r.0) r.2 =
      contents-places r.0 r.1
      ∙ ap (map (byte_at r.0)) stands
      ∙ map-append_lem (byte_at r.0) (places s.1.chunks) r.2
      ∙ ap (λ l. l ++ map (byte_at r.0) r.2)
          (ap (λ (g : ℕ → ℕ → ℕ). map (λ a. g a.0 a.1) (places s.1.chunks)) same
            ∙ sym (contents-places s.0 s.1.chunks)) in
    let counted : s.1.content_size + n ≡ content_size_slow r.1 = omega (
      arith,
      v.counted,
      content_size_slow-contents s.0 s.1.chunks,
      content_size_slow-contents r.0 r.1,
      ap length all,
      length-append (contents s.0 s.1.chunks) (map (byte_at r.0) r.2),
      length-map_lem (byte_at r.0) r.2,
      l,
    ) in
    (
      t,
      r.2,
      rw zero_cnt refl,
      l,
      record {
        front = places s.1.chunks;
        back = [];
        valid = record { chain = chain; apart = apart; counted = counted };
        stands = stands ∙ ap (◌++◌ (places s.1.chunks)) (sym (append-nil r.2));
        bytes_front =
            ap (λ (g : ℕ → ℕ → ℕ). map (λ a. g a.0 a.1) (places s.1.chunks)) same
            ∙ sym (contents-places s.0 s.1.chunks);
        bytes_back = refl;
      },
      z,
    )

-- A write keeps the mark.
put-Marked :
    (before : List ℕ) (bm : List Place) (behind p : List ℕ) (s : State)
    → Marked before bm behind s
    → Marked before bm (behind ++ p) (put_bytes p s)
put-Marked before bm behind p s k =
    let t = put_bytes p s in
    let (new, grown) = write_chain-places s.0 s.1.chunks p k.valid.chain in
    let stands : places t.1.chunks ≡ k.front ++ (bm ++ (k.back ++ new)) =
      unfold write in
      (grown
        ∙ ap (λ l. l ++ new) k.stands
        ∙ append_assoc k.front (bm ++ k.back) new
        ∙ ap (◌++◌ k.front) (append_assoc bm k.back new)) in
    let now : map (byte_at t.0) k.front
          ++ (map (byte_at t.0) bm ++ map (byte_at t.0) (k.back ++ new))
        ≡ before ++ (map (byte_at s.0) bm ++ (behind ++ p)) =
      sym (map-three (byte_at t.0) k.front bm (k.back ++ new))
      ∙ sym (ap (map (byte_at t.0)) stands)
      ∙ sym (contents-places t.0 t.1.chunks)
      ∙ contents-write s.0 s.1 p k.valid
      ∙ ap (λ l. l ++ p) (Marked-pending before bm behind s k)
      ∙ append_assoc before (map (byte_at s.0) bm ++ behind) p
      ∙ ap (◌++◌ before) (append_assoc (map (byte_at s.0) bm) behind p) in
    let (f, others) =
      cut _ _ before _
        (length-map_lem (byte_at t.0) k.front
          ∙ sym (length-map_lem (byte_at s.0) k.front)
          ∙ ap length k.bytes_front)
        now in
    let (_, b) =
      cut _ _ (map (byte_at s.0) bm) _
        (length-map_lem (byte_at t.0) bm ∙ sym (length-map_lem (byte_at s.0) bm)) others in
    record {
      front = k.front;
      back = k.back ++ new;
      valid = write-IsValid s.0 s.1 p k.valid;
      stands = stands;
      bytes_front = f;
      bytes_back = b;
    }

pub written-Marked :
    (ps : List (List ℕ)) (before : List ℕ) (bm : List Place) (behind : List ℕ) (s : State)
    → Marked before bm behind s
    → Marked before bm (behind ++ join ps) (written ps s)
written-Marked [] before bm behind s k = rw (append-nil behind) k
written-Marked (p ∷ ps) before bm behind s k =
    rw (append_assoc behind p (join ps)) at (
      written-Marked ps before bm (behind ++ p) (put_bytes p s) (put-Marked before bm behind p s k))

-- The counter is the number of bytes written since it was reset, modulo 2 ^ 32.
pub written-write_cnt :
    (ps : List (List ℕ)) (s : State)
    → s.1.write_cnt < 2 ^ 32
    → (written ps s).1.write_cnt ≡ (s.1.write_cnt + length (join ps)) % 2 ^ 32
unfolding write
written-write_cnt [] s lt = omega (arith, lt)
written-write_cnt (p ∷ ps) s lt =
    omega (arith, written-write_cnt ps (put_bytes p s) (omega arith), length-append p (join ps))
