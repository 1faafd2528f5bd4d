-- ===== src/Marshal/Containers.antt =====
-- The stream operators of std::pair, std::vector and std::list in src/misc/marshal.hpp, over the
-- operators of their elements, and those of the sets and the maps. These write what they hold as a
-- list does, a map its pairs.
-- The loop of `>>` counts an int up to an i64: here it counts the rounds.
pub mod Lists
pub mod Misread
use s_rpc.Base.{ℕ, zero, suc, List, [], ◌∷◌, Bool, length}
use s_rpc.Base.Int.{ℤ, pos, leb_ℤ, pos_part}
use s_rpc.Base.Outcome.{Outcome, done, ◌>>=◌, ◌>>◌, verify}
use s_rpc.Marshal.Wire.{State, put_v64, get_int}

module _ {A B : Type 0} where
  unfoldable pub put_pair : (A → State → State) → (B → State → State) → A × B → State → State
  put_pair put_first put_second v s = put_second v.1 (put_first v.0 s)

  unfoldable pub get_pair :
      (State → Outcome (A × State))
      → (State → Outcome (B × State))
      → State
      → Outcome ((A × B) × State)
  get_pair get_first get_second s = do (a, t) ← get_first s; (b, u) ← get_second t; done ((a, b), u)

module _ {A : Type 0} where
  unfoldable pub put_each : (A → State → State) → List A → State → State
  put_each put [] s = s
  put_each put (a ∷ v) s = put_each put v (put a s)

  -- The number of elements as a v64, and then they.
  unfoldable pub put_list : (A → State → State) → List A → State → State
  put_list put v s = put_each put v (put_v64 (pos (length v)) s)

  unfoldable pub get_each : (State → Outcome (A × State)) → ℕ → State → Outcome (List A × State)
  get_each get zero s = done ([], s)
  get_each get (suc n) s = do (a, t) ← get s; (v, u) ← get_each get n t; done (a ∷ v, u)

  -- The number of elements as an i64, and then they; below 0 there are none.
  unfoldable pub get_list : (State → Outcome (A × State)) → State → Outcome (List A × State)
  get_list get s = do (v_len, t) ← get_int 8 s; get_each get (pos_part v_len) t

  -- std::vector reserves its memory first, which throws where the length is negative or there is not
  -- so much; nothing catches it, and it ends the process as a `verify` does.
  unfoldable pub get_vector :
      (ℕ → Bool) → (State → Outcome (A × State)) → State → Outcome (List A × State)
  get_vector reserves get s = do
    (v_len, t) ← get_int 8 s
    verify (leb_ℤ (pos 0) v_len)
    verify (reserves (pos_part v_len))
    get_each get (pos_part v_len) t

  -- The loop of `>>` for a container that elements are inserted into: a set, or a map of pairs.
  unfoldable pub get_into :
      {C : Type 0}
      → (A → C → C)
      → (State → Outcome (A × State))
      → ℕ
      → C
      → State
      → Outcome (C × State)
  get_into insert get zero v s = done (v, s)
  get_into insert get (suc n) v s = do (a, t) ← get s; get_into insert get n (insert a v) t

  -- std::set and std::unordered_set. `cleared` is empty, and `insert`
  -- what the container does.
  unfoldable pub get_set :
      {C : Type 0} → C → (A → C → C) → (State → Outcome (A × State)) → State → Outcome (C × State)
  unfolding get_into
  get_set cleared insert get s = do
    (v_len, t) ← get_int 8 s
    get_into insert get (pos_part v_len) cleared t

-- std::map and std::unordered_map, with their pairs in the order in which they are visited.
module _ {K V : Type 0} where
  unfoldable pub put_map : (K → State → State) → (V → State → State) → List (K × V) → State → State
  unfolding put_list put_pair
  put_map put_key put_value = put_list (put_pair put_key put_value)

  -- `insert_into_map` is `insert`.
  unfoldable pub get_map :
      {C : Type 0}
      → C
      → (K → V → C → C)
      → (State → Outcome (K × State))
      → (State → Outcome (V × State))
      → State
      → Outcome (C × State)
  unfolding get_set get_pair
  get_map cleared insert get_key get_value =
      get_set cleared (λ (p : K × V). insert p.0 p.1) (get_pair get_key get_value)
