-- ===== src/Tests/Races.antt =====
-- A function with two effects against the timer of its contract.
use openkedge.Prelude.{ℕ, ◌≡◌, refl, true, List, [], ◌∷◌, Result, ok}
use openkedge.Governance.{Thrown}
use openkedge.Manager.Race.{Turn, go_on, settle, fire, next, turns, begin_race}
use openkedge.Manager.Entries.{late_effects}

abbrev both : List ℕ
both = 1 ∷ 2 ∷ []

abbrev seven : Result Thrown ℕ
seven = ok 7

abbrev in_time : List Turn
in_time = go_on ∷ go_on ∷ settle ∷ next ∷ next ∷ next ∷ []

-- The timer fires between the two effects.
abbrev too_late : List Turn
too_late = go_on ∷ fire ∷ next ∷ go_on ∷ next ∷ next ∷ []

-- The second effect follows the call to revoke.
too_late_test : late_effects (turns (begin_race both seven true) too_late).seen ≡ 2 ∷ []
unfolding turns
too_late_test = refl
