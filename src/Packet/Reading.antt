-- ===== src/Packet/Reading.antt =====
-- The readers of src/misc/marshal.hpp write to no memory, so that the Marshals that share blocks
-- with the one that is read keep their contents.
use s_rpc.Base.{
  ℕ, suc, ◌-◌, length, ◌*◌, ◌≡◌, ◌⊎◌, ◌<◌, ◌≤◌, ◌^◌, refl, List, ◌++◌, ◌==◌, leb, get_or,
}
use s_rpc.Base.Int.{ℤ}
use s_rpc.Base.Outcome.{Outcome, done, After, After-then, After-bind, verify, in_bounds}
use s_rpc.SparseInt.{load_i32, load_i64, buf_size, magnitude, pattern_of}
use s_rpc.SparseInt.Sizes.{dump_i32-eq-dump_i64}
use s_rpc.SparseInt.RoundTrip.{load_i32-dump_i32, load_i64-dump_i64}
use s_rpc.Marshal.Memory.{Memory}
use s_rpc.Marshal.Buffer.{read, peek}
use s_rpc.Marshal.Wire.{State, get_bytes, bytes_of, get_int, get_sparse, get_v32, get_v64}
use s_rpc.Marshal.Wire.Scalars.{Gets, Valid, pending, get_bytes-Gets, Gets-int}
use s_rpc.Marshal.Wire.Sparse.{sent, Gets-v32, Gets-v64}

abbrev pub InMemory : {A : Type 0} → Memory → A × State → Type 0
InMemory h r = r.1.0 ≡ h

After-done : {A : Type 0} (P : A → Type 0) (m : Outcome A) (a : A) → After P m → m ≡ done a → P a
After-done P m a p e = rw e at p

get_bytes-InMemory : (n : ℕ) (s : State) → After (InMemory s.0) (get_bytes n s)
unfolding get_bytes
get_bytes-InMemory n s =
    After-then (InMemory s.0) (verify (length (read s.0 s.1 n).0 == n)) _ (λ u. refl)

get_sparse-InMemory :
    (cap : ℕ) (load : List ℕ → ℤ) (junk : List ℕ) (s : State)
    → After (InMemory s.0) (get_sparse cap load junk s)
unfolding get_sparse
get_sparse-InMemory cap load junk s =
    let byte0 = peek s.0 s.1 1 in
    let bsize = buf_size (get_or byte0 0 0) in
    After-then (InMemory s.0) (verify (length byte0 == 1)) _ (λ u.
      After-then (InMemory s.0) (in_bounds (leb bsize cap)) _ (λ u.
        After-bind (InMemory s.0) (InMemory s.0) (get_bytes bsize s) _ (get_bytes-InMemory bsize s)
          (λ r e. e)))

get_int-InMemory : (k : ℕ) (s : State) → After (InMemory s.0) (get_int k s)
unfolding get_int
get_int-InMemory k s =
    After-bind (InMemory s.0) (InMemory s.0) (get_bytes k s) _ (get_bytes-InMemory k s) (λ r e. e)

-- A reader of `enc`, with the memory that it leaves.
abbrev pub Takes : {A : Type 0} → (State → Outcome (A × State)) → List ℕ → A → Type 0
Takes {A} get enc a =
    (s : State) (rest : List ℕ)
    → Valid s
    → pending s ≡ enc ++ rest
    → (t : State) × (get s ≡ done (a, t)) × (pending t ≡ rest) × Valid t × (t.0 ≡ s.0)

Gets-Takes :
    {A : Type 0} (get : State → Outcome (A × State)) (enc : List ℕ) (a : A)
    → ((s : State) → After (InMemory s.0) (get s))
    → Gets get enc a
    → Takes get enc a
Gets-Takes get enc a kept g s rest v e =
    let (t, got, left, valid) = g s rest v e in
    (t, got, left, valid, After-done (InMemory s.0) (get s) (a, t) (kept s) got)

-- A v64 that survives its encoding.
abbrev pub Survives : ℤ → Type 0
Survives v = (magnitude v < 2 ^ 63) × ((magnitude v < 2 ^ 48) ⊎ (2 ^ 55 ≤ magnitude v))

pub Takes-v64 : (v : ℤ) (junk : List ℕ) → Survives v → Takes (get_v64 junk) (sent v) v
Takes-v64 v junk (h, range) = rw (load_i64-dump_i64 v junk h range) at (
    Gets-Takes (get_v64 junk) (sent v) _
      (λ s. unfold get_v64 in get_sparse-InMemory 9 load_i64 junk s) (Gets-v64 v junk h))

pub Takes-v32 : (v : ℤ) (junk : List ℕ) → magnitude v < 2 ^ 31 → Takes (get_v32 junk) (sent v) v
Takes-v32 v junk h = rw (rw (dump_i32-eq-dump_i64 v h) at (load_i32-dump_i32 v junk h)) at (
    Gets-Takes (get_v32 junk) (sent v) _
      (λ s. unfold get_v32 in get_sparse-InMemory 5 load_i32 junk s) (Gets-v32 v junk h))

pub Takes-bytes : (p : List ℕ) → Takes (get_bytes (length p)) p p
Takes-bytes p =
    Gets-Takes (get_bytes (length p)) p p (get_bytes-InMemory (length p)) (get_bytes-Gets p)

Takes-int :
    (k : ℕ) (v : ℤ)
    → magnitude v < 2 ^ (8 * suc k - 1)
    → Takes (get_int (suc k)) (bytes_of (suc k) (pattern_of (8 * suc k) v)) v
Takes-int k v h =
    Gets-Takes (get_int (suc k)) (bytes_of (suc k) (pattern_of (8 * suc k) v)) v
      (get_int-InMemory (suc k)) (Gets-int k v h)
