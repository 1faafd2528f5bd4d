-- ===== src/Strop/Ends.antt =====
-- startswith and endswith.
use s_rpc.Base.{
  ℕ, ◌-◌, ◌≡◌, ◌↔◌, refl, sym, ◌∙◌, ap, List, [], ◌∷◌, ◌++◌, true, arith, length, take, drop, ltb,
  le→ltb, Bool-cases, inl, inr, length-append, take-append-drop, take_all, take-front, drop-front,
  length-drop,
}
use s_rpc.Strop.{same_text, startswith, endswith}

same_text_refl : (xs : List ℕ) → same_text xs xs ≡ true
same_text_refl [] = refl
same_text_refl (x ∷ xs) = ground (arith, same_text_refl xs)

same_text-eq : (xs ys : List ℕ) → same_text xs ys ≡ true → xs ≡ ys
same_text-eq [] [] e = refl
same_text-eq [] (y ∷ ys) e = cc
same_text-eq (x ∷ xs) [] e = cc
same_text-eq (x ∷ xs) (y ∷ ys) e = ground (arith, e, same_text-eq xs ys)

-- A string starts with `head` exactly when it is `head` and something behind it.
startswith_iff :
    (str head : List ℕ) → (startswith str head ≡ true) ↔ ((rest : List ℕ) × (str ≡ head ++ rest))
unfolding startswith
startswith_iff str head = (split str head, λ r. rw r.1 (joined head r.0))
  where
    split :
        (str head : List ℕ) → startswith str head ≡ true → (rest : List ℕ) × (str ≡ head ++ rest)
    split str head e = elim (Bool-cases (ltb (length str) (length head))) [
      | inl short ↦ absurd (ground (arith, e, short))
      | inr fits ↦
          let front : take (length head) str ≡ head =
            same_text-eq (take (length head) str) head (ground (arith, e, fits)) in
          (
            drop (length head) str,
            sym (take-append-drop (length head) str) ∙ ap (λ l. l ++ drop (length head) str) front,
          )
    ]

    joined : (head rest : List ℕ) → startswith (head ++ rest) head ≡ true
    joined head rest =
        rw
          (
            le→ltb (length (head ++ rest)) (length head) (omega (arith, length-append head rest)),
            take-front head rest,
          )
          (same_text_refl head)

-- A string ends with `tail` exactly when it is something and `tail` behind it.
endswith_iff :
    (str tail : List ℕ) → (endswith str tail ≡ true) ↔ ((rest : List ℕ) × (str ≡ rest ++ tail))
unfolding endswith
endswith_iff str tail = (split str tail, λ r. rw r.1 (joined r.0 tail))
  where
    split : (str tail : List ℕ) → endswith str tail ≡ true → (rest : List ℕ) × (str ≡ rest ++ tail)
    split str tail e = elim (Bool-cases (ltb (length str) (length tail))) [
      | inl short ↦ absurd (ground (arith, e, short))
      | inr fits ↦
          let n = length str - length tail in
          let whole : take (length tail) (drop n str) ≡ drop n str =
            take_all (length tail) (drop n str) (omega (arith, length-drop n str)) in
          let back : drop n str ≡ tail =
            sym whole
            ∙ same_text-eq (take (length tail) (drop n str)) tail (ground (arith, e, fits)) in
          (take n str, sym (take-append-drop n str) ∙ ap (λ l. take n str ++ l) back)
    ]

    joined : (rest tail : List ℕ) → endswith (rest ++ tail) tail ≡ true
    joined rest tail =
        let n : length (rest ++ tail) - length tail ≡ length rest =
          omega (arith, length-append rest tail) in
        rw
          (
            le→ltb (length (rest ++ tail)) (length tail) (omega (arith, length-append rest tail)),
            n,
            drop-front rest tail,
            take_all (length tail) tail (omega arith),
          )
          (same_text_refl tail)
