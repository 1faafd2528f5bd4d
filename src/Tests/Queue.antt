-- ===== src/Tests/Queue.antt =====
-- Marshal, of src/misc/marshal.cpp, and its operators.
use s_rpc.Base.{◌+◌, ◌%◌, ◌^◌, ◌≡◌, refl, inl, ◌⊎◌, true, ◌++◌, [], ◌∷◌, arith, take, drop, ltb}
use s_rpc.Base.Int.{pos, negsuc}
use s_rpc.Base.Outcome.{Succeeds, done, fault, verify_failed}
use s_rpc.Marshal.Memory.{Memory, store, bytes_from}
use s_rpc.Marshal.Chunk
use s_rpc.Marshal.Buffer.{
  empty_marshal, contents, content_size_slow, write, read, IsValid, assert_write,
}
use s_rpc.Marshal.Buffer.Write.{write-IsValid, assert_write_lem}
use s_rpc.Marshal.Slice.{read_from_marshal, read_nothing}
use s_rpc.Marshal.Buffer
use s_rpc.Marshal.Buffer.Read.{read_lem}
use s_rpc.Marshal.Wire.{
  State, put_bytes, put_v64, get_v64, put_string, get_string, put_int, get_int,
}
use s_rpc.Marshal.Wire.Scalars.{Valid, pending}
use s_rpc.Marshal.Wire.Sparse.{get_v64-put_v64, get_v64_eight}
use s_rpc.Marshal.Wire.Strings.{get_string_fails}
use s_rpc.Marshal.Containers.{put_list, get_vector, get_list, get_set}
use s_rpc.Marshal.Containers.Lists.{encoded}
use s_rpc.Marshal.Containers.Misread.{int_bytes, containers_fail}

abbrev blank : Memory
blank = record { next = 0; at = λ b i. 0 }

blank-IsValid : IsValid blank empty_marshal
unfolding content_size_slow
blank-IsValid = record { chain = tt; apart = tt; counted = refl }

blank-contents : contents blank empty_marshal.chunks ≡ []
unfolding contents
blank-contents = refl

-- Two bytes, one read.
read_one : (let r = write blank empty_marshal (5 ∷ 6 ∷ []) in (read r.0 r.1 1).0) ≡ 5 ∷ []
unfolding write read Chunk.new_from Chunk.read store bytes_from
read_one = refl

abbrev two : State
two = put_bytes (5 ∷ 6 ∷ []) (blank, empty_marshal)

two-IsValid : Valid two
two-IsValid = write-IsValid blank empty_marshal (5 ∷ 6 ∷ []) blank-IsValid

assert_write_lem_example :
    Succeeds
      (λ r.
        (contents r.0 r.1.chunks ≡ contents two.0 two.1.chunks ++ 7 ∷ [])
        × (r.1.write_cnt ≡ (two.1.write_cnt + 1) % 2 ^ 32)
        × IsValid r.0 r.1)
      (assert_write two.0 two.1 (7 ∷ []))
assert_write_lem_example = assert_write_lem two.0 two.1 (7 ∷ []) two-IsValid (omega arith)

read_nothing_example : read_from_marshal two.0 two.1 empty_marshal 0 ≡ fault verify_failed
unfolding Buffer.write_chain Chunk.new_from write
read_nothing_example = read_nothing two.0 two.1 empty_marshal refl

read_lem_example :
    let r = read two.0 two.1 1 in
    (r.0 ≡ take 1 (contents two.0 two.1.chunks))
    × (contents two.0 r.1.chunks ≡ drop 1 (contents two.0 two.1.chunks))
    × (r.1.write_cnt ≡ two.1.write_cnt)
read_lem_example = read_lem two.0 two.1 1 two-IsValid

get_v64-put_v64_example :
    (t : State) × (get_v64 [] (put_bytes (3 ∷ []) (put_v64 (negsuc 99999) (blank, empty_marshal)))
      ≡ done (negsuc 99999, t))
    × (pending t ≡ 3 ∷ [])
    × Valid t
get_v64-put_v64_example =
    get_v64-put_v64 (negsuc 99999) [] (blank, empty_marshal) (3 ∷ []) (omega arith)
      (inl (omega arith)) blank-IsValid blank-contents

get_v64_eight_example :
    (t : State) × (get_v64 (5 ∷ []) (put_bytes [] (put_v64 (pos (2 ^ 50)) (blank, empty_marshal)))
      ≡ done (pos (2 ^ 50 + 5), t))
    × (pending t ≡ [])
    × Valid t
get_v64_eight_example =
    get_v64_eight (pos (2 ^ 50)) 5 [] (blank, empty_marshal) [] (omega arith) (omega arith)
      (omega arith) blank-IsValid blank-contents

wide_first : State
wide_first = put_bytes (0xff ∷ []) (blank, empty_marshal)

get_string_fails_example :
    get_string (λ n. ltb n 100) (put_string (b'a' ∷ b'b' ∷ []) (blank, empty_marshal))
    ≡ fault verify_failed
get_string_fails_example =
    get_string_fails (λ n. ltb n 100) (b'a' ∷ b'b' ∷ []) (blank, empty_marshal) blank-IsValid
      blank-contents (omega arith)

-- A set of numbers, in the order in which they were inserted.
containers_fail_example :
    let t = put_list (put_int 4) (pos 1 ∷ negsuc 1 ∷ []) (blank, empty_marshal) in
    (get_vector (λ n. true) (get_int 4) t ≡ fault verify_failed)
    × ((get_list (get_int 4) t ≡ fault verify_failed)
        ⊎ ((u : State) × (get_list (get_int 4) t ≡ done ([], u))
            × (pending u ≡ drop 7 (encoded (int_bytes 3) (pos 1 ∷ negsuc 1 ∷ [])))))
    × ((get_set [] ◌∷◌ (get_int 4) t ≡ fault verify_failed)
        ⊎ ((u : State) × (get_set [] ◌∷◌ (get_int 4) t ≡ done ([], u))
            × (pending u ≡ drop 7 (encoded (int_bytes 3) (pos 1 ∷ negsuc 1 ∷ [])))))
containers_fail_example =
    containers_fail 3 (pos 1 ∷ negsuc 1 ∷ []) (blank, empty_marshal) blank-IsValid blank-contents
      (omega arith) (λ n. true) [] ◌∷◌ (omega arith)
