-- ===== src/WriteSpool/Lines.antt =====
-- Lines and their parts: what is written line by line is read back line by line.
use buy_not_buy_com.Common.{ℕ, ◌≡◌, ◌≢◌, refl, ap, ◌∙◌, List, [], ◌∷◌, ◌++◌, All, arith}
use buy_not_buy_com.WriteSpool.{newline, extend_first, split_lines}

abbrev pub IsInline : List ℕ → Type 0
IsInline = All (λ c. c ≢ newline)

split_lines-other :
    (c : ℕ) (cs : List ℕ) → c ≢ newline → split_lines (c ∷ cs) ≡ extend_first c (split_lines cs)
unfolding split_lines
split_lines-other c cs h = ground (arith, h)

-- A finished line is the first part.
pub split_lines-line :
    (line rest : List ℕ)
    → IsInline line
    → split_lines (line ++ (newline ∷ rest)) ≡ line ∷ split_lines rest
unfolding split_lines
split_lines-line [] rest h = refl
split_lines-line (c ∷ cs) rest (h, hs) =
    split_lines-other c (cs ++ (newline ∷ rest)) h
    ∙ ap (extend_first c) (split_lines-line cs rest hs)

-- A text without a line's end is one part.
pub split_lines-fragment : (cs : List ℕ) → IsInline cs → split_lines cs ≡ cs ∷ []
unfolding split_lines
split_lines-fragment [] h = refl
split_lines-fragment (c ∷ cs) (h, hs) =
    split_lines-other c cs h ∙ ap (extend_first c) (split_lines-fragment cs hs)
