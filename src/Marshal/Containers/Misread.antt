-- ===== src/Marshal/Containers/Misread.antt =====
-- std::list and std::vector do not come back through a Marshal: `<<` writes the number of elements as
-- a v64 and `>>` reads it as an i64.
use s_rpc.Base.{
  ℕ, zero, suc, ◌*◌, ◌^◌, ◌≤◌, ◌<◌, ◌≡◌, refl, sym, ◌∙◌, ap, List, [], ◌∷◌, Bool, false, ◌⊎◌, inl,
  inr, arith, ltb, length, take, drop, Bool-cases, take-append-drop, length-take, length-drop,
}
use s_rpc.Base.Int.{ℤ, pos, pos_part, leb_ℤ}
use s_rpc.Base.Outcome.{Outcome, ◌>>=◌, bind_same, bind_assoc, done, fault, verify_failed}
use s_rpc.SparseInt.{of_bytes, pattern_of, signed}
use s_rpc.Marshal.Wire.{State, put_int, get_int, bytes_of}
use s_rpc.Marshal.Wire.Scalars.{
  Valid, pending, Puts, put_bytes-Puts, get_bytes-Gets, get_bytes_short, length-bytes_of,
}
use s_rpc.Marshal.Wire.Strings.{sent_small}
use s_rpc.Marshal.Containers.{put_list, get_each, get_list, get_vector, get_into, get_set}
use native.Mathlib.Decide.{dec_lt}
use native.Mathlib.Nat.{mul-le-mul_right}
use s_rpc.Marshal.Containers.Lists.{encoded, length-encoded, put_list-Puts}

-- Where fewer bytes wait than the elements take, the `verify` on one of them fails.
get_each_short :
    (k n : ℕ) (s : State)
    → Valid s
    → length (pending s) < n * suc k
    → get_each (get_int (suc k)) n s ≡ fault verify_failed
unfolding get_each get_int
get_each_short k zero s w lt = absurd (omega (arith, lt))
get_each_short k (suc n) s w lt = elim (dec_lt (length (pending s)) (suc k)) [
  | yes few ↦ rw (get_bytes_short (suc k) s w few)
  | no many ↦
      let p = take (suc k) (pending s) in
      let whole : length p ≡ suc k = omega (arith, length-take (suc k) (pending s)) in
      let (t, got, left, valid) =
        get_bytes-Gets p s (drop (suc k) (pending s)) w
          (sym (take-append-drop (suc k) (pending s))) in
      let behind : length (pending t) < n * suc k =
        ground (arith, ap length left, length-drop (suc k) (pending s), lt) in
      rw (rw whole at got, get_each_short k n t valid behind)
]

-- A small v64 read as an i64: with the seven bytes behind it, it is no smaller, or negative.
abbrev Misread : ℕ → List ℕ → State → Type 0
Misread n more s =
    (z : ℤ) × (t : State) × (get_int 8 s ≡ done (z, t))
    × Valid t
    × (pending t ≡ drop 7 more)
    × ((n ≤ pos_part z) ⊎ ((leb_ℤ (pos 0) z ≡ false) × (pos_part z ≡ 0)))

signed_cases :
    (p n : ℕ)
    → n ≤ p
    → (n ≤ pos_part (signed 64 p))
      ⊎ ((leb_ℤ (pos 0) (signed 64 p) ≡ false) × (pos_part (signed 64 p) ≡ 0))
signed_cases p n le = elim (Bool-cases (ltb p (2 ^ 63))) [
  | inl small ↦ inl (rw small le)
  | inr large ↦ inr (rw large (ground arith, refl))
]

misread :
    (n : ℕ) (more : List ℕ) (s : State)
    → Valid s
    → pending s ≡ n ∷ more
    → 7 ≤ length more
    → Misread n more s
unfolding get_int
misread n more s w e enough =
    let p = take 8 (pending s) in
    let eight : length p ≡ 8 = omega (arith, length-take 8 (pending s), ap length e) in
    let (t, got, left, valid) =
      get_bytes-Gets p s (drop 8 (pending s)) w (sym (take-append-drop 8 (pending s))) in
    let first : n ≤ of_bytes p = rw e (omega arith) in
    (
      signed 64 (of_bytes p),
      t,
      rw (rw eight at got),
      valid,
      left ∙ ap (drop 8) e,
      signed_cases (of_bytes p) n first,
    )

-- The encoding of an integer of `suc k` bytes.
abbrev pub int_bytes : ℕ → ℤ → List ℕ
int_bytes k a = bytes_of (suc k) (pattern_of (8 * suc k) a)

put_int-Puts : (k : ℕ) (a : ℤ) → Puts (put_int (suc k) a) (int_bytes k a)
unfolding put_int
put_int-Puts k a = put_bytes-Puts (int_bytes k a)

-- The elements of a list, inserted one after another.
abbrev inserted : {A C : Type 0} → (A → C → C) → List A → C → C
inserted insert [] v = v
inserted insert (a ∷ l) v = inserted insert l (insert a v)

get_into-get_each :
    {A C : Type 0} (insert : A → C → C) (get : State → Outcome (A × State)) (n : ℕ) (v : C)
    (s : State)
    → get_into insert get n v s ≡ (get_each get n s >>= λ r. done (inserted insert r.0 v, r.1))
unfolding get_into get_each
get_into-get_each insert get zero v s = refl
get_into-get_each {A} {C} insert get (suc n) v s =
    let more = λ (r : A × State). get_each get n r.1 >>= λ q. done (r.0 ∷ q.0, q.1) in
    let last = λ (r : List A × State). done (inserted insert r.0 v, r.1) in
    bind_same (get s) _ _ (λ r.
      get_into-get_each insert get n (insert r.0 v) r.1
      ∙ sym (bind_assoc (get_each get n r.1) (λ q. done (r.0 ∷ q.0, q.1)) last))
    ∙ sym (bind_assoc (get s) more last)

get_set-get_list :
    {A C : Type 0} (cleared : C) (insert : A → C → C) (get : State → Outcome (A × State))
    (s : State)
    → get_set cleared insert get s
      ≡ (get_list get s >>= λ r. done (inserted insert r.0 cleared, r.1))
unfolding get_set get_list
get_set-get_list {A} {C} cleared insert get s =
    let last = λ (r : List A × State). done (inserted insert r.0 cleared, r.1) in
    bind_same (get_int 8 s) _ _ (λ r. get_into-get_each insert get (pos_part r.0) cleared r.1)
    ∙ sym (bind_assoc (get_int 8 s) (λ r. get_each get (pos_part r.0) r.1) last)

module _ (k : ℕ) (v : List ℤ) (s : State) (w : Valid s) (e : pending s ≡ [])
    (small : length v < 64) where
  written : State
  written = put_list (put_int (suc k)) v s

  written-Valid : Valid written
  unfolding written
  written-Valid = (put_list-Puts (put_int (suc k)) (int_bytes k) (put_int-Puts k) v s w).1

  written-pending : pending written ≡ length v ∷ encoded (int_bytes k) v
  unfolding written
  written-pending =
      (put_list-Puts (put_int (suc k)) (int_bytes k) (put_int-Puts k) v s w).0
      ∙ rw (e, sent_small (length v) small)

  written_length : length (encoded (int_bytes k) v) ≡ length v * suc k
  written_length =
      length-encoded (int_bytes k) (suc k) (λ a. length-bytes_of (suc k) (pattern_of (8 * suc k) a))
        v

  -- There are not as many elements as a length that is no smaller promises.
  too_many :
      (n : ℕ) (t : State)
      → 0 < length v
      → Valid t
      → pending t ≡ drop 7 (encoded (int_bytes k) v)
      → 7 ≤ length (encoded (int_bytes k) v)
      → length v ≤ n
      → get_each (get_int (suc k)) n t ≡ fault verify_failed
  too_many n t filled valid left enough le = get_each_short k n t valid (
      omega (
        arith,
        ap length left,
        length-drop 7 (encoded (int_bytes k) v),
        written_length,
        mul-le-mul_right (suc k) le,
        enough,
      ))

  no_length : length (encoded (int_bytes k) v) < 7 → get_int 8 written ≡ fault verify_failed
  unfolding get_int
  no_length few =
      rw (get_bytes_short 8 written written-Valid (omega (arith, ap length written-pending, few)))

  -- A vector fails, however much memory may be had.
  get_vector_fails :
      (reserves : ℕ → Bool)
      → 0 < length v
      → get_vector reserves (get_int (suc k)) (put_list (put_int (suc k)) v s) ≡ fault verify_failed
  unfolding get_vector written
  get_vector_fails reserves filled = elim (dec_lt (length (encoded (int_bytes k) v)) 7) [
    | yes few ↦ rw (no_length few)
    | no many ↦
        let enough : 7 ≤ length (encoded (int_bytes k) v) = omega (arith, many) in
        let (z, t, got, valid, left, large) =
          misread (length v) (encoded (int_bytes k) v) written written-Valid written-pending
            enough in
        elim large [
          | inr (negative, _) ↦ rw (got, negative)
          | inl le ↦ rw got (ground (arith, too_many (pos_part z) t filled valid left enough le))
        ]
  ]

  -- A list fails, or comes back empty with all but seven bytes of its elements left in the Marshal.
  get_list_fails :
      0 < length v
      → (get_list (get_int (suc k)) (put_list (put_int (suc k)) v s) ≡ fault verify_failed)
        ⊎ ((t : State) × (get_list (get_int (suc k)) (put_list (put_int (suc k)) v s)
              ≡ done ([], t))
            × (pending t ≡ drop 7 (encoded (int_bytes k) v)))
  unfolding get_list get_each written
  get_list_fails filled = elim (dec_lt (length (encoded (int_bytes k) v)) 7) [
    | yes few ↦ inl (rw (no_length few))
    | no many ↦
        let enough : 7 ≤ length (encoded (int_bytes k) v) = omega (arith, many) in
        let (z, t, got, valid, left, large) =
          misread (length v) (encoded (int_bytes k) v) written written-Valid written-pending
            enough in
        elim large [
          | inr (_, nothing) ↦ inr (t, rw (got, nothing), left)
          | inl le ↦ inl (rw got (too_many (pos_part z) t filled valid left enough le))
        ]
  ]

  -- And so does a set.
  get_set_fails :
      {C : Type 0} (cleared : C) (insert : ℤ → C → C)
      → 0 < length v
      → (get_set cleared insert (get_int (suc k)) (put_list (put_int (suc k)) v s)
          ≡ fault verify_failed)
        ⊎ ((t : State) × (get_set cleared insert (get_int (suc k)) (put_list (put_int (suc k)) v s)
              ≡ done (cleared, t))
            × (pending t ≡ drop 7 (encoded (int_bytes k) v)))
  get_set_fails cleared insert filled =
      let got =
        get_set-get_list cleared insert (get_int (suc k)) (put_list (put_int (suc k)) v s) in
      elim (get_list_fails filled) [
        | inl fails ↦ inl (got ∙ rw fails refl)
        | inr (t, empty, left) ↦ inr (t, got ∙ rw empty refl, left)
      ]

  -- No container of 1 to 63 integers, of a type of k + 1 bytes, is read back from a valid Marshal that
  -- holds its encoding alone. operator>> of a vector fails the verify of a read or the reservation of
  -- its memory, however much memory may be had; that of a list, or of a container whose elements are
  -- inserted, fails the verify of a read, or gives an empty one and leaves the bytes of the elements in
  -- the Marshal, less seven.
  pub containers_fail :
      {C : Type 0} (reserves : ℕ → Bool) (cleared : C) (insert : ℤ → C → C)
      → 0 < length v
      → let t = put_list (put_int (suc k)) v s in
        (get_vector reserves (get_int (suc k)) t ≡ fault verify_failed)
        × ((get_list (get_int (suc k)) t ≡ fault verify_failed)
            ⊎ ((u : State) × (get_list (get_int (suc k)) t ≡ done ([], u))
                × (pending u ≡ drop 7 (encoded (int_bytes k) v))))
        × ((get_set cleared insert (get_int (suc k)) t ≡ fault verify_failed)
            ⊎ ((u : State) × (get_set cleared insert (get_int (suc k)) t ≡ done (cleared, u))
                × (pending u ≡ drop 7 (encoded (int_bytes k) v))))
  containers_fail reserves cleared insert filled =
      (get_vector_fails reserves filled, get_list_fails filled, get_set_fails cleared insert filled)
