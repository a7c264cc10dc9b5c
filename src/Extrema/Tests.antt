-- ===== src/Extrema/Tests.antt =====
-- A series with a flat bottom of three bars.
use buy_not_buy_com.Common.{◌≡◌, refl, some, none, List, [], ◌∷◌}
use buy_not_buy_com.Common.Int.{pos}
use buy_not_buy_com.Number.Integers.{Integer, integer_number}
use buy_not_buy_com.Extrema.{find_local_bottoms, find_local_tops}

abbrev series : List Integer
series =
    some (pos 5) ∷ some (pos 2) ∷ some (pos 2) ∷ some (pos 2) ∷ some (pos 7) ∷ some (pos 4) ∷ []

flat_bottom : find_local_bottoms series 1 1 ≡ some (2 ∷ [])
unfolding find_local_bottoms
flat_bottom = refl

one_top : find_local_tops series 1 1 ≡ some (4 ∷ [])
unfolding find_local_tops
one_top = refl

no_window : find_local_tops series 0 1 ≡ none
unfolding find_local_tops
no_window = refl
