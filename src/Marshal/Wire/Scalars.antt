-- ===== src/Marshal/Wire/Scalars.antt =====
-- Bytes and fixed-width integers through a Marshal: what is put is got back, in order.
use s_rpc.Base.{
  ℕ, zero, suc, ◌+◌, ◌-◌, ◌*◌, ◌/◌, ◌%◌, ◌^◌, ◌<◌, ◌≡◌, refl, ◌∙◌, ap, List, [], ◌++◌, arith,
  length, take, drop, length-take, take-append, drop-append, take_all, drop_all, append-nil,
  ==_refl, le→ltb, lt→ltb,
}
use s_rpc.Base.Int.{ℤ, pos, negsuc}
use s_rpc.Base.Outcome.{Outcome, done, fault, verify_failed}
use s_rpc.SparseInt.{magnitude, pattern_of, signed, of_bytes}
use native.Mathlib.Nat.{pow-suc, mod-eq_of_lt, mod-lt, one-le-pow}
use native.Mathlib.Numerals.{towards_suc}
use s_rpc.Marshal.Buffer.{IsValid, contents, read}
use s_rpc.Marshal.Buffer.Write.{contents-write, write-IsValid}
use s_rpc.Marshal.Buffer.Read.{read_lem, read-IsValid}
use s_rpc.Marshal.Wire.{State, bytes_of, put_bytes, get_bytes, put_int, get_int, put_uint, get_uint}

abbrev pub Valid : State → Type 0
Valid s = IsValid s.0 s.1

-- The bytes that are waiting in a Marshal.
abbrev pub pending : State → List ℕ
pending s = contents s.0 s.1.chunks

-- An operation that appends `enc`, and one that takes `enc` off the front and returns `a`.
abbrev pub Puts : (State → State) → List ℕ → Type 0
Puts put enc = (s : State) → Valid s → (pending (put s) ≡ pending s ++ enc) × Valid (put s)

abbrev pub Gets : {A : Type 0} → (State → Outcome (A × State)) → List ℕ → A → Type 0
Gets {A} get enc a =
    (s : State) (rest : List ℕ)
    → Valid s
    → pending s ≡ enc ++ rest
    → (t : State) × (get s ≡ done (a, t)) × (pending t ≡ rest) × Valid t

pub put_bytes-Puts : (p : List ℕ) → Puts (put_bytes p) p
put_bytes-Puts p s v = (contents-write s.0 s.1 p v, write-IsValid s.0 s.1 p v)

pub get_bytes-Gets : (p : List ℕ) → Gets (get_bytes (length p)) p p
unfolding get_bytes
get_bytes-Gets p s rest v e =
    let r = read s.0 s.1 (length p) in
    let (a, b, _) = read_lem s.0 s.1 (length p) v in
    let z : length p - length p ≡ 0 = omega arith in
    let got : r.0 ≡ p =
      a
      ∙ ap (take (length p)) e
      ∙ take-append (length p) p rest
      ∙ rw (z, take_all (length p) p (omega arith)) (append-nil p) in
    let left : contents s.0 r.1.chunks ≡ rest =
      b
      ∙ ap (drop (length p)) e
      ∙ drop-append (length p) p rest
      ∙ rw (z, drop_all (length p) p (omega arith)) in
    ((s.0, r.1), rw (got, ==_refl), left, read-IsValid s.0 s.1 (length p) v)

-- Where fewer bytes wait than are asked for, the `verify` fails.
pub get_bytes_short :
    (n : ℕ) (s : State) → Valid s → length (pending s) < n → get_bytes n s ≡ fault verify_failed
unfolding get_bytes
get_bytes_short n s v lt =
    let (a, _, _) = read_lem s.0 s.1 n v in ground (arith, ap length a, length-take n (pending s))

-- What one side puts the other gets, whatever is put behind it.
pub through :
    {A : Type 0} (put : State → State) (get : State → Outcome (A × State)) (enc : List ℕ) (a : A)
    → Puts put enc
    → Gets get enc a
    → (s : State) (more : List ℕ) → Valid s
    → pending s ≡ []
    → (t : State) × (get (put_bytes more (put s)) ≡ done (a, t)) × (pending t ≡ more) × Valid t
through put get enc a p g s more v e =
    let (q, w) = p s v in
    let (q', w') = put_bytes-Puts more (put s) w in
    g _ more w' (q' ∙ ap (λ l. l ++ more) (rw e at q))

pub length-bytes_of : (k p : ℕ) → length (bytes_of k p) ≡ k
length-bytes_of zero p = refl
length-bytes_of (suc k) p = ap suc (length-bytes_of k (p / 256))

pub of_bytes-bytes_of : (k p : ℕ) → p < 256 ^ k → of_bytes (bytes_of k p) ≡ p
of_bytes-bytes_of zero p h = omega arith
of_bytes-bytes_of (suc k) p h =
    omega (arith, of_bytes-bytes_of k (p / 256) (omega (arith, h, pow-suc 256 k)))

shift_eight : (s : ℕ) → 2 ^ (s + 8) ≡ 256 * 2 ^ s
shift_eight s = simp towards_suc (omega arith)

pow_256 : (k : ℕ) → 256 ^ k ≡ 2 ^ (8 * k)
pow_256 zero = refl
pow_256 (suc k) =
    let e : 8 * suc k ≡ 8 * k + 8 = omega arith in
    rw (e, shift_eight) (omega (arith, pow-suc 256 k, pow_256 k))

-- A value that fits `w + 1` bits is the value of its pattern.
signed-pattern_of :
    (w : ℕ) (v : ℤ) → magnitude v < 2 ^ w → signed (suc w) (pattern_of (suc w) v) ≡ v
signed-pattern_of w (pos n) h =
    let e : suc w - 1 ≡ w = omega arith in
    let m : n % 2 ^ suc w ≡ n = mod-eq_of_lt (omega (arith, pow-suc 2 w)) in
    rw (m, e, lt→ltb n (2 ^ w) h)
signed-pattern_of w (negsuc n) h =
    let e : suc w - 1 ≡ w = omega arith in
    let m : n % 2 ^ suc w ≡ n = mod-eq_of_lt (omega (arith, pow-suc 2 w)) in
    rw (m, e, le→ltb (2 ^ suc w - 1 - n) (2 ^ w) (omega (arith, pow-suc 2 w)))
      (ap negsuc (omega (arith, pow-suc 2 w)))

pattern_of-lt : (w : ℕ) (v : ℤ) → pattern_of w v < 2 ^ w
pattern_of-lt w (pos n) = mod-lt n (one-le-pow w 2 (omega arith))
pattern_of-lt w (negsuc n) = omega (arith, one-le-pow w 2 (omega arith))

pub signed-bytes_of :
    (k : ℕ) (v : ℤ)
    → magnitude v < 2 ^ (8 * suc k - 1)
    → signed (8 * suc k) (of_bytes (bytes_of (suc k) (pattern_of (8 * suc k) v))) ≡ v
signed-bytes_of k v h =
    let bits : 8 * suc k ≡ suc (8 * suc k - 1) = omega arith in
    rw
      (of_bytes-bytes_of (suc k) (pattern_of (8 * suc k) v)
        (rw (pow_256 (suc k)) (pattern_of-lt (8 * suc k) v)))
      (rw (← bits) at (signed-pattern_of (8 * suc k - 1) v h))

pub Gets-int :
    (k : ℕ) (v : ℤ)
    → magnitude v < 2 ^ (8 * suc k - 1)
    → Gets (get_int (suc k)) (bytes_of (suc k) (pattern_of (8 * suc k) v)) v
unfolding get_int
Gets-int k v h s rest w e =
    let p = bytes_of (suc k) (pattern_of (8 * suc k) v) in
    let (t, got, left, valid) = get_bytes-Gets p s rest w e in
    (
      t,
      rw ((rw (length-bytes_of (suc k) (pattern_of (8 * suc k) v)) at got), signed-bytes_of k v h),
      left,
      valid,
    )

-- A signed integer that fits its `k + 1` bytes, written to a valid Marshal where no byte waits, is
-- read back, whatever is put behind it, and those bytes are what is left.
get_int-put_int :
    (k : ℕ) (v : ℤ) (s : State) (more : List ℕ)
    → magnitude v < 2 ^ (8 * suc k - 1)
    → Valid s
    → pending s ≡ []
    → (t : State) × (get_int (suc k) (put_bytes more (put_int (suc k) v s)) ≡ done (v, t))
      × (pending t ≡ more)
      × Valid t
unfolding put_int
get_int-put_int k v s more h w e =
    through (put_int (suc k) v) (get_int (suc k)) _ v
      (put_bytes-Puts (bytes_of (suc k) (pattern_of (8 * suc k) v))) (Gets-int k v h) s more w e

-- An unsigned integer that fits its `k` bytes, written to a valid Marshal where no byte waits, is read
-- back, whatever is put behind it, and those bytes are what is left.
get_uint-put_uint :
    (k v : ℕ) (s : State) (more : List ℕ)
    → v < 256 ^ k
    → Valid s
    → pending s ≡ []
    → (t : State) × (get_uint k (put_bytes more (put_uint k v s)) ≡ done (v, t))
      × (pending t ≡ more)
      × Valid t
unfolding put_uint get_uint
get_uint-put_uint k v s more h w e =
    let (t, got, left, valid) =
      through (put_uint k v) (get_bytes (length (bytes_of k v))) _ _ (put_bytes-Puts (bytes_of k v))
        (get_bytes-Gets (bytes_of k v)) s more w e in
    (t, rw ((rw (length-bytes_of k v) at got), of_bytes-bytes_of k v h), left, valid)
