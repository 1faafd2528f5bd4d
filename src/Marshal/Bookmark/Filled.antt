-- ===== src/Marshal/Bookmark/Filled.antt =====
-- A bookmark set, bytes written behind it, and the bookmark filled: what waits is then the bytes from
-- before, those of the bookmark, and those written behind it, whatever chunks hold them.
use s_rpc.Base.{ℕ, ◌%◌, ◌^◌, ◌≡◌, refl, ◌∙◌, ap, ap₂, List, [], ◌∷◌, ◌++◌, arith, length, map, All}
use s_rpc.Base.Outcome.{done}
use s_rpc.Marshal.Memory.{Memory, store}
use s_rpc.Marshal.Wire.{State}
use s_rpc.Marshal.Wire.Scalars.{Valid, pending}
use s_rpc.Marshal.Bookmark.{Place, set_bookmark, fill, write_bookmark}
use s_rpc.Marshal.Bookmark.Places
use s_rpc.Marshal.Bookmark.Places.{
  places, byte_at, contents-places, map-append_lem, Distinct, Distinct-places, Distinct-split,
  fill_self, fill_before, fill_after, All-split,
}
use s_rpc.Marshal.Bookmark.Marked.{
  written, put_all, put_all-written, NoneEmpty, join, Marked, map-three, set_bookmark-Marked,
  written-Marked, written-write_cnt,
}

fill-next : (h : Memory) (bm : List Place) (p : List ℕ) → (fill h bm p).next ≡ h.next
unfolding fill store
fill-next h [] p = refl
fill-next h (a ∷ bm) [] = refl
fill-next h (a ∷ bm) (x ∷ p) = fill-next (store h a.0 a.1 (x ∷ [])) bm p

-- Filling the bookmark of a marked Marshal.
fill-Marked :
    (before : List ℕ) (bm : List Place) (behind p : List ℕ) (s : State)
    → Marked before bm behind s
    → length bm ≡ length p
    → let t = write_bookmark bm p s in (pending t ≡ before ++ (p ++ behind)) × Valid t
fill-Marked before bm behind p s k l =
    let h = fill s.0 bm p in
    let distinct = Distinct-places s.0.next s.1.chunks k.valid.apart in
    let (_, later, front_other) = Distinct-split k.front (bm ++ k.back) (rw k.stands at distinct) in
    let (alone, _, back_other) = Distinct-split bm k.back later in
    let all : pending (h, s.1) ≡ before ++ (p ++ behind) =
      contents-places h s.1.chunks
      ∙ ap (map (byte_at h)) k.stands
      ∙ map-three (byte_at h) k.front bm k.back
      ∙ ap₂ ◌++◌ (fill_before s.0 bm p k.front (fronts k.front front_other) ∙ k.bytes_front) (
          ap₂ ◌++◌ (fill_self s.0 bm p alone l)
            (fill_after s.0 bm p k.back back_other ∙ k.bytes_back)) in
    (
      all,
      record {
        chain = k.valid.chain;
        apart = rw (fill-next s.0 bm p) k.valid.apart;
        counted = k.valid.counted;
      },
    )
  where
    fronts :
        (xs : List Place)
        → All (λ x. All (Places.Differ x) (bm ++ k.back)) xs
        → All (λ x. All (Places.Differ x) bm) xs
    fronts [] d = tt
    fronts (x ∷ xs) d = ((All-split (Places.Differ x) bm k.back d.0).0, fronts xs d.1)

-- Where the strings may be empty, and no assert is looked at.
pub write_bookmark-written :
    (p : List ℕ) (ps : List (List ℕ)) (s : State)
    → Valid s
    → s.1.write_cnt ≡ 0
    → (t : State) × (bm : List Place) × (set_bookmark (length p) s ≡ done (t, bm))
      × Valid t
      × (let u = write_bookmark bm p (written ps t) in
          (pending u ≡ pending s ++ (p ++ join ps))
          × Valid u
          × (u.1.write_cnt ≡ length (join ps) % 2 ^ 32))
write_bookmark-written p ps s v z =
    let (t, bm, e, l, k, z') = set_bookmark-Marked (length p) s v z in
    let (all, valid) =
      fill-Marked (pending s) bm (join ps) p (written ps t)
        (written-Marked ps (pending s) bm [] t k) l in
    (t, bm, e, k.valid, (all, valid, omega (arith, z', written-write_cnt ps t (omega (arith, z')))))

-- On a valid Marshal with no byte counted, `set_bookmark` of as many bytes as `p` has succeeds; when
-- byte strings `ps`, none of them empty, are then written, every assert of `write` holds, and when the
-- bookmark is then filled with `p`, what waits is what waited before, then `p`, then the strings, the
-- Marshal is valid, and the counter is the number of bytes of the strings modulo 2 ^ 32.
pub write_bookmark_lem :
    (p : List ℕ) (ps : List (List ℕ)) (s : State)
    → Valid s
    → s.1.write_cnt ≡ 0
    → NoneEmpty ps
    → (t : State) × (bm : List Place) × (set_bookmark (length p) s ≡ done (t, bm))
      × (w : State) × (put_all ps t ≡ done w)
      × (let u = write_bookmark bm p w in
          (pending u ≡ pending s ++ (p ++ join ps))
          × Valid u
          × (u.1.write_cnt ≡ length (join ps) % 2 ^ 32))
write_bookmark_lem p ps s v z some =
    let (t, bm, e, valid, filled) = write_bookmark-written p ps s v z in
    (t, bm, e, written ps t, put_all-written ps t valid some, filled)
