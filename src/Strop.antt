-- ===== src/Strop.antt =====
-- The string operations of src/base/strop.hpp and strop.cpp. A string is the list of its characters;
-- `none` is std::string::npos. format_decimal is left out: it groups the text that the library prints.
pub mod Split
pub mod Words
pub mod Ends
use s_rpc.Base.{
  ℕ, zero, suc, ◌+◌, ◌-◌, List, [], ◌∷◌, ◌++◌, Bool, true, false, not, ◌&&◌, Option, some, none,
  length, take, drop, ltb, ◌==◌, if◌then◌else◌,
}
use s_rpc.Base.Outcome.{Outcome, done, fault, out_of_fuel}

abbrev pub shift : ℕ → Option ℕ → Option ℕ
shift n none = none
shift n (some i) = some (n + i)

-- The place of the first character that passes a test.
unfoldable pub index_of : (ℕ → Bool) → List ℕ → Option ℕ
index_of test [] = none
index_of test (c ∷ cs) = if test c then some 0 else shift 1 (index_of test cs)

-- str.find(sep, pos) and str.find_first_not_of(sep, pos): the first such place from `pos` on.
unfoldable pub find_from : (ℕ → Bool) → List ℕ → Option ℕ → Option ℕ
find_from test str none = none
find_from test str (some pos) = shift pos (index_of test (drop pos str))

-- The rest of `str` from `begin` on, where that is a place of it.
unfoldable pub last_piece : List ℕ → Option ℕ → List (List ℕ)
last_piece str none = []
last_piece str (some begin) = if ltb begin (length str) then drop begin str ∷ [] else []

-- The piece from `begin` to `end`, str.substr(begin, end - begin).
unfoldable pub piece : List ℕ → Option ℕ → ℕ → List ℕ
piece str none end = []
piece str (some begin) end = take (end - begin) (drop begin str)

-- The loop of strsplit, and what follows it.
unfoldable pub split_loop : ℕ → List ℕ → ℕ → Option ℕ → List (List ℕ) → Outcome (List (List ℕ))
split_loop zero str sep begin split = fault out_of_fuel
split_loop (suc fuel) str sep begin split = elim (find_from (λ c. c == sep) str begin) [
  | none ↦ done (split ++ last_piece str begin)
  | some end ↦
      split_loop fuel str sep (find_from (λ c. not (c == sep)) str (some end))
        (split ++ (piece str begin end ∷ []))
]

unfoldable pub strsplit : List ℕ → ℕ → Outcome (List (List ℕ))
strsplit str sep =
    split_loop (length str + 1) str sep (find_from (λ c. not (c == sep)) str (some 0)) []

abbrev pub same_text : List ℕ → List ℕ → Bool
same_text [] [] = true
same_text (c ∷ cs) (d ∷ ds) = c == d && same_text cs ds
same_text _ _ = false

unfoldable pub startswith : List ℕ → List ℕ → Bool
startswith str head =
    if ltb (length str) (length head) then false else same_text (take (length head) str) head

unfoldable pub endswith : List ℕ → List ℕ → Bool
endswith str tail =
    if ltb (length str) (length tail)
    then false
    else same_text (take (length tail) (drop (length str - length tail) str)) tail
