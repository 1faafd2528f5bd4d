-- ===== src/Marshal/Containers/Lists.antt =====
-- std::list and std::vector through a Marshal. `<<` writes the number of elements as a v64 and `>>`
-- reads it as an i64, so the two do not fit together, as with std::string.
use s_rpc.Base.{
  ℕ, ◌*◌, ◌^◌, ◌<◌, ◌≡◌, refl, sym, ◌∙◌, ap, List, [], ◌∷◌, ◌++◌, arith, length, append_assoc,
  append-nil, length-append,
}
use s_rpc.Base.Int.{pos}
use s_rpc.Base.Outcome.{Outcome}
use s_rpc.SparseInt.{pattern_of}
use s_rpc.Marshal.Wire.{State, put_bytes, put_v64, bytes_of}
use s_rpc.Marshal.Wire.Scalars.{pending, Puts, Gets, put_bytes-Puts, Gets-int}
use s_rpc.Marshal.Wire.Sparse.{sent}
use s_rpc.Marshal.Containers.{put_each, put_list, get_each, get_list, put_pair, get_pair}

-- The encodings of the elements, one behind another.
abbrev pub encoded : {A : Type 0} → (A → List ℕ) → List A → List ℕ
encoded enc [] = []
encoded enc (a ∷ v) = enc a ++ encoded enc v

module _ {A : Type 0} (put : A → State → State) (enc : A → List ℕ)
    (puts : (a : A) → Puts (put a) (enc a)) where
  put_each-Puts : (v : List A) → Puts (put_each put v) (encoded enc v)
  unfolding put_each
  put_each-Puts [] s w = (sym (append-nil (pending s)), w)
  put_each-Puts (a ∷ v) s w =
      let (x, valid) = puts a s w in
      let (y, valid') = put_each-Puts v (put a s) valid in
      (
        y ∙ ap (λ l. l ++ encoded enc v) x ∙ append_assoc (pending s) (enc a) (encoded enc v),
        valid',
      )

  pub put_list-Puts : (v : List A) → Puts (put_list put v) (sent (pos (length v)) ++ encoded enc v)
  unfolding put_list put_v64
  put_list-Puts v s w =
      let n = sent (pos (length v)) in
      let (x, valid) = put_bytes-Puts n s w in
      let (y, valid') = put_each-Puts v (put_bytes n s) valid in
      (y ∙ ap (λ l. l ++ encoded enc v) x ∙ append_assoc (pending s) n (encoded enc v), valid')

module _ {A : Type 0} (get : State → Outcome (A × State)) (enc : A → List ℕ)
    (gets : (a : A) → Gets get (enc a) a) where
  get_each-Gets : (v : List A) → Gets (get_each get (length v)) (encoded enc v) v
  unfolding get_each
  get_each-Gets [] s rest w e = (s, refl, e, w)
  get_each-Gets (a ∷ v) s rest w e =
      let (t, got, left, valid) =
        gets a s (encoded enc v ++ rest) w (e ∙ append_assoc (enc a) (encoded enc v) rest) in
      let (u, got', left', valid') = get_each-Gets v t rest valid left in
      (u, rw (got, got'), left', valid')

  -- What `>>` takes: the number of elements in eight bytes, and then they.
  get_list-Gets :
      (v : List A)
      → length v < 2 ^ 63
      → Gets (get_list get) (bytes_of 8 (pattern_of 64 (pos (length v))) ++ encoded enc v) v
  unfolding get_list
  get_list-Gets v h s rest w e =
      let head = bytes_of 8 (pattern_of 64 (pos (length v))) in
      let (t, got, left, valid) =
        Gets-int 7 (pos (length v)) h s (encoded enc v ++ rest) w
          (e ∙ append_assoc head (encoded enc v) rest) in
      let (u, got', left', valid') = get_each-Gets v t rest valid left in
      (u, rw got got', left', valid')

pub length-encoded :
    {A : Type 0} (enc : A → List ℕ) (k : ℕ)
    → ((a : A) → length (enc a) ≡ k)
    → (v : List A) → length (encoded enc v) ≡ length v * k
length-encoded enc k h [] = omega arith
length-encoded enc k h (a ∷ v) =
    grind (arith, length-append (enc a) (encoded enc v), h a, length-encoded enc k h v)

module _ {A B : Type 0} where
  put_pair-Puts :
      (put_first : A → State → State) (put_second : B → State → State) (a : A) (b : B)
      (first second : List ℕ)
      → Puts (put_first a) first
      → Puts (put_second b) second
      → Puts (put_pair put_first put_second (a, b)) (first ++ second)
  unfolding put_pair
  put_pair-Puts put_first put_second a b first second p q s w =
      let (x, valid) = p s w in
      let (y, valid') = q (put_first a s) valid in
      (y ∙ ap (λ l. l ++ second) x ∙ append_assoc (pending s) first second, valid')

  get_pair-Gets :
      (get_first : State → Outcome (A × State)) (get_second : State → Outcome (B × State)) (a : A)
      (b : B) (first second : List ℕ)
      → Gets get_first first a
      → Gets get_second second b
      → Gets (get_pair get_first get_second) (first ++ second) (a, b)
  unfolding get_pair
  get_pair-Gets get_first get_second a b first second p q s rest w e =
      let (t, got, left, valid) = p s (second ++ rest) w (e ∙ append_assoc first second rest) in
      let (u, got', left', valid') = q t rest valid left in (u, rw (got, got'), left', valid')
