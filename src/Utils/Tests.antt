-- ===== src/Utils/Tests.antt =====
-- Searches in a list of numbers.
use litedoge_js.Prelude.{
  ℕ, zero, suc, ◌≡◌, ◌<◌, refl, List, [], ◌∷◌, arith, ltb, ◌==◌, length, if◌then◌else◌,
}
use litedoge_js.Utils.Binary.{
  Sign, below, same, above, absent, search, IsSortedFor, IsPosition, compare_at,
}
use litedoge_js.Utils.Binary.Place.{search-IsPosition}

abbrev compare_numbers : ℕ → ℕ → Sign
compare_numbers a b = if a == b then same else if ltb a b then below else above

abbrev numbers : List ℕ
numbers = 2 ∷ 4 ∷ 6 ∷ []

numbers_below :
    (i j : ℕ)
    → i < j
    → j < length numbers
    → compare_at compare_numbers numbers 5 j ≡ below
    → compare_at compare_numbers numbers 5 i ≡ below
numbers_below zero j h k e = refl
numbers_below (suc zero) j h k e = refl
numbers_below (suc (suc i)) j h k e = absurd (omega (arith, h, k))

numbers_above :
    (i j : ℕ)
    → i < j
    → j < length numbers
    → compare_at compare_numbers numbers 5 i ≡ above
    → compare_at compare_numbers numbers 5 j ≡ above
numbers_above zero j h k e = cc e
numbers_above (suc zero) j h k e = cc e
numbers_above (suc (suc i)) j h k e = absurd (omega (arith, h, k))

numbers-IsSortedFor : IsSortedFor compare_numbers numbers 5
numbers-IsSortedFor = (numbers_below, numbers_above)

search_runs : search compare_numbers numbers 5 ≡ absent 2
unfolding search
search_runs = refl

search-IsPosition_example : IsPosition compare_numbers numbers 5 (search compare_numbers numbers 5)
search-IsPosition_example = search-IsPosition compare_numbers numbers 5 numbers-IsSortedFor
