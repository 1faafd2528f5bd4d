-- ===== src/Tests/Texts.antt =====
-- Texts that are split.
use s_rpc.Base.{ℕ, ◌≡◌, refl, List, [], ◌∷◌}
use s_rpc.Base.Outcome.{done}
use s_rpc.Strop.{strsplit}
use s_rpc.Strop.Split.{words}
use s_rpc.Strop.Words.{strsplit_lem}

-- " ab  c", at blanks
abbrev text : List ℕ
text = 32 ∷ 97 ∷ 98 ∷ 32 ∷ 32 ∷ 99 ∷ []

strsplit_lem_example : strsplit text 32 ≡ done (words 32 text)
strsplit_lem_example = strsplit_lem text 32

words_of_text : words 32 text ≡ (97 ∷ 98 ∷ []) ∷ (99 ∷ []) ∷ []
words_of_text = refl
