-- ===== src/Tests/Marshals.antt =====
-- Bookmarks and cuts of a Marshal (src/misc/marshal.cpp).
use s_rpc.Base.{◌≡◌, refl, ap, List, [], ◌∷◌, ◌++◌, arith, length, take, drop}
use s_rpc.Base.Outcome.{done}
use s_rpc.Marshal.Buffer.{Marshal, write, empty_marshal, IsValid, contents}
use s_rpc.Marshal.Bookmark.{Place, set_bookmark, write_bookmark}
use s_rpc.Marshal.Bookmark.Marked.{put_all}
use s_rpc.Marshal.Bookmark.Filled.{write_bookmark_lem}
use s_rpc.Marshal.Slice.{read_from_marshal}
use s_rpc.Marshal.Slice.Whole.{read_from_marshal_lem}
use s_rpc.Marshal.Wire.{State}
use s_rpc.Marshal.Wire.Scalars.{Valid, pending}
use s_rpc.Tests.Calls.{holding, holding_lem}

-- A bookmark of two bytes, and three bytes behind it.
write_bookmark_lem_example :
    (t : State) × (bm : List Place) × (set_bookmark 2 (holding []) ≡ done (t, bm))
    × (w : State) × (put_all ((1 ∷ []) ∷ (2 ∷ 3 ∷ []) ∷ []) t ≡ done w)
    × (let u = write_bookmark bm (8 ∷ 9 ∷ []) w in
        (pending u ≡ pending (holding []) ++ 8 ∷ 9 ∷ 1 ∷ 2 ∷ 3 ∷ [])
        × Valid u
        × (u.1.write_cnt ≡ 3))
unfolding write
write_bookmark_lem_example =
    write_bookmark_lem (8 ∷ 9 ∷ []) ((1 ∷ []) ∷ (2 ∷ 3 ∷ []) ∷ []) (holding []) (holding_lem []).1
      refl (omega arith, (omega arith, tt))

-- Two of four bytes are cut off.
read_from_marshal_lem_example :
    (req : Marshal) × (m : Marshal) × (read_from_marshal
        (holding (1 ∷ 2 ∷ 3 ∷ 4 ∷ [])).0
        empty_marshal
        (holding (1 ∷ 2 ∷ 3 ∷ 4 ∷ [])).1
        2
      ≡ done ((holding (1 ∷ 2 ∷ 3 ∷ 4 ∷ [])).0, req, m))
    × (contents (holding (1 ∷ 2 ∷ 3 ∷ 4 ∷ [])).0 req.chunks
        ≡ take 2 (pending (holding (1 ∷ 2 ∷ 3 ∷ 4 ∷ []))))
    × (contents (holding (1 ∷ 2 ∷ 3 ∷ 4 ∷ [])).0 m.chunks
        ≡ drop 2 (pending (holding (1 ∷ 2 ∷ 3 ∷ 4 ∷ []))))
    × IsValid (holding (1 ∷ 2 ∷ 3 ∷ 4 ∷ [])).0 req
    × IsValid (holding (1 ∷ 2 ∷ 3 ∷ 4 ∷ [])).0 m
read_from_marshal_lem_example =
    read_from_marshal_lem (holding (1 ∷ 2 ∷ 3 ∷ 4 ∷ [])).0 (holding (1 ∷ 2 ∷ 3 ∷ 4 ∷ [])).1 2
      (holding_lem (1 ∷ 2 ∷ 3 ∷ 4 ∷ [])).1
      (omega (arith, ap length (holding_lem (1 ∷ 2 ∷ 3 ∷ 4 ∷ [])).0))
