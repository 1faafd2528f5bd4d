-- ===== src/Enumerator.antt =====
-- `MergedEnumerator` (src/base/basetypes.hpp): several enumerators merged into one in the order of
-- their elements. An enumerator is the list of what it still gives; each is added once, and only the
-- merged one draws from it afterwards. `greater` is `Compare`.
pub mod Merge
use s_rpc.Base.{ℕ, zero, suc, Bool, true, false, List, [], ◌∷◌, if◌then◌else◌}
use s_rpc.Base.Outcome.{Outcome, done, fault, overrun, out_of_fuel, ◌>>=◌}

-- `merge_helper`: an element, and the enumerator that it came from.
abbrev pub Helper : Type 0 → Type 0
Helper A = A × List A

-- Its `operator <`: the greater element is the lesser helper.
abbrev pub less : {A : Type 0} → (A → A → Bool) → Helper A → Helper A → Bool
less greater h other = greater h.0 other.0

module _ {A : Type 0} where
  -- `q_`, in any order.
  unfoldable pub has_next : List (Helper A) → Bool
  has_next [] = false
  has_next (h ∷ q) = true

  unfoldable pub add_source : List A → List (Helper A) → List (Helper A)
  add_source [] q = q
  add_source (x ∷ src) q = (x, src) ∷ q

  -- `q_.top()` and `q_.pop()`, where the element `i` of the queue is at its top.
  unfoldable pub take_out : ℕ → Helper A → List (Helper A) → Helper A × List (Helper A)
  take_out zero h q = (h, q)
  take_out (suc i) h [] = (h, [])
  take_out (suc i) h (g ∷ q) = let (t, rest) = take_out i g q in (t, h ∷ rest)

  -- `top` says which element std::priority_queue has at its top: among equal ones that is up to it.
  module _ (top : Helper A → List (Helper A) → ℕ) where
    -- `next()`. The top of an empty queue is an access outside its array.
    unfoldable pub next : List (Helper A) → Outcome (A × List (Helper A))
    unfolding take_out add_source
    next [] = fault overrun
    next (h ∷ q) = let (mh, rest) = take_out (top h q) h q in done (mh.0, add_source mh.1 rest)

    -- Elements are taken while there are any.
    unfoldable pub drain : ℕ → List (Helper A) → Outcome (List A)
    unfolding has_next next
    drain zero q = fault out_of_fuel
    drain (suc fuel) q =
        let more = next q >>= λ (a, q'). drain fuel q' >>= λ out. done (a ∷ out) in
        if has_next q then more else done []

-- `add_source` for one enumerator after another.
unfoldable pub add_sources : {A : Type 0} → List (List A) → List (Helper A) → List (Helper A)
unfolding add_source
add_sources [] q = q
add_sources (src ∷ srcs) q = add_sources srcs (add_source src q)
