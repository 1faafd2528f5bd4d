-- ===== src/Strop/Words.antt =====
-- strsplit against a plain description of what it returns.
use s_rpc.Base.{
  ℕ, zero, suc, ◌+◌, ◌-◌, ◌<◌, ◌≡◌, sym, ◌∙◌, ap, ap₂, List, [], ◌∷◌, ◌++◌, Bool, Option, some,
  none, arith, length, take, drop, lt→ltb, Option-cases, inl, inr, append_assoc, append-nil,
  length-drop, drop-drop,
}
use s_rpc.Base.Outcome.{done}
use s_rpc.Strop.{shift, index_of, find_from, last_piece, piece, split_loop, strsplit}
use s_rpc.Strop.Split.{
  is_sep, no_sep, words, words-skip, words-none, words-cons, words-last, index_of-lt-length,
  index_of-drop,
}

module _ (str : List ℕ) (sep : ℕ) where
  -- Where no word is left, the loop ends.
  split_loop_end :
      (fuel : ℕ) (split : List (List ℕ))
      → 0 < fuel
      → split_loop fuel str sep none split ≡ done split
  unfolding split_loop find_from last_piece
  split_loop_end zero split h = absurd (omega (arith, h))
  split_loop_end (suc fuel) split h = ap done (append-nil split)

  -- The next word starts where find_first_not_of finds a character, from `pos` on.
  abbrev Next : ℕ → ℕ → Type 0
  Next fuel pos =
      (split : List (List ℕ))
      → length (drop pos str) < fuel
      → split_loop fuel str sep (find_from (no_sep sep) str (some pos)) split
        ≡ done (split ++ words sep (drop pos str))

  -- From a place where a word starts.
  abbrev At : ℕ → ℕ → Type 0
  At fuel begin =
      (split : List (List ℕ))
      → index_of (no_sep sep) (drop begin str) ≡ some 0
      → length (drop begin str) < fuel
      → split_loop fuel str sep (some begin) split ≡ done (split ++ words sep (drop begin str))

  At-Next : (fuel pos : ℕ) → ((begin : ℕ) → At fuel begin) → Next fuel pos
  unfolding find_from
  At-Next fuel pos at split fits = elim (Option-cases (index_of (no_sep sep) (drop pos str))) [
    | inl end ↦
        rw (end, words-none sep (drop pos str) end, append-nil split)
          (split_loop_end fuel split (omega (arith, fits)))
    | inr (j, found) ↦
        let here : index_of (no_sep sep) (drop (pos + j) str) ≡ some 0 =
          ap (index_of (no_sep sep)) (drop-drop pos j str)
          ∙ index_of-drop (no_sep sep) (drop pos str) j found in
        let short : length (drop (pos + j) str) < fuel =
          omega (arith, length-drop (pos + j) str, length-drop pos str, fits) in
        rw found (
          at (pos + j) split here short
          ∙ ap (λ l. done (split ++ words sep l)) (drop-drop pos j str)
          ∙ ap (λ l. done (split ++ l)) (sym (words-skip sep (drop pos str) j found)))
  ]

  split_loop_last :
      (fuel begin : ℕ) (split : List (List ℕ))
      → find_from (is_sep sep) str (some begin) ≡ none
      → split_loop (suc fuel) str sep (some begin) split
        ≡ done (split ++ last_piece str (some begin))
  unfolding split_loop
  split_loop_last fuel begin split e = rw (e, split_loop)

  split_loop_next :
      (fuel begin end : ℕ) (split : List (List ℕ))
      → find_from (is_sep sep) str (some begin) ≡ some end
      → split_loop (suc fuel) str sep (some begin) split
        ≡ split_loop fuel str sep
            (find_from (no_sep sep) str (some end))
            (split ++ (piece str (some begin) end ∷ []))
  unfolding split_loop
  split_loop_next fuel begin end split e = rw (e, split_loop)

  find_from_lem :
      (test : ℕ → Bool) (begin : ℕ) (o : Option ℕ)
      → index_of test (drop begin str) ≡ o
      → find_from test str (some begin) ≡ shift begin o
  unfolding find_from
  find_from_lem test begin o e = ap (shift begin) e

  piece_lem : (begin k : ℕ) → piece str (some begin) (begin + k) ≡ take k (drop begin str)
  unfolding piece
  piece_lem begin k = let back : begin + k - begin ≡ k = omega arith in rw back

  last_piece_lem :
      (begin : ℕ) → begin < length str → last_piece str (some begin) ≡ drop begin str ∷ []
  unfolding last_piece
  last_piece_lem begin lt = rw (lt→ltb begin (length str) lt)

  split_loop_lem : (fuel begin : ℕ) → At fuel begin
  split_loop_lem zero begin split start fits = absurd (omega (arith, fits))
  split_loop_lem (suc fuel) begin split start fits =
      let d = drop begin str in
      elim (Option-cases (index_of (is_sep sep) d)) [
        | inl end ↦
            let (some_left, all) = words-last sep d start end in
            split_loop_last fuel begin split (find_from_lem (is_sep sep) begin none end)
            ∙ ap (λ l. done (split ++ l))
                (last_piece_lem begin (omega (arith, some_left, length-drop begin str)) ∙ sym all)
        | inr (k, found) ↦
            let (some_left, cons) = words-cons sep d k start found in
            let p = piece str (some begin) (begin + k) in
            let shorter : length (drop (begin + k) str) < fuel = omega (
              arith,
              length-drop (begin + k) str,
              length-drop begin str,
              fits,
              some_left,
              index_of-lt-length (is_sep sep) d k found,
            ) in
            split_loop_next fuel begin (begin + k) split
              (find_from_lem (is_sep sep) begin (some k) found)
            ∙ At-Next fuel (begin + k) (split_loop_lem fuel) (split ++ (p ∷ [])) shorter
            ∙ ap done (
                append_assoc split (p ∷ []) (words sep (drop (begin + k) str))
                ∙ ap (λ l. split ++ l)
                    (ap₂ ◌∷◌ (piece_lem begin k) (ap (words sep) (drop-drop begin k str))
                      ∙ sym cons))
      ]

-- strsplit returns, and gives the fields between the separators that are not empty, in their order.
pub strsplit_lem : (str : List ℕ) (sep : ℕ) → strsplit str sep ≡ done (words sep str)
unfolding strsplit
strsplit_lem str sep =
    At-Next str sep (length str + 1) 0 (split_loop_lem str sep (length str + 1)) [] (omega arith)
