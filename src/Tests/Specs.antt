-- ===== src/Tests/Specs.antt =====
-- The data of the messages and of the maps, at concrete inputs.
use frclib_nettables.Base.{
  All, ℕ, ℕ_discrete, ◌≡◌, refl, true, none, some, List, [], ◌∷◌, In, arith, ◌↔◌, ◌≤◌,
}
use frclib_nettables.Base.Map.{nat_key, text_key, lookup, insert}
use frclib_nettables.Base.Text.{Text-discrete, codes}
use frclib_nettables.BiMap.{PrimBiMap, new, insert_pair, get_by_left, get_by_right, remove_by_left}
use frclib_nettables.BiMap.Laws.{IsInverse, insert_pair-IsInverse, remove_by_left-stale}
use frclib_nettables.Server.Util.{ServerSendableValue, normal_value, new_all, new_one, take_values}
use frclib_nettables.Server.Util.Stored.{
  add_all, values_of, last_value, entry, single, take_values-all, take_values-one,
}
use frclib_nettables.Server.Values.Latest.{latest_of, latest_of-newest}
use frclib_nettables.Spec.Extensions.{from_u8, string_array, TimestampedValue}
use frclib_nettables.Spec.MetaTopic.{client, ClientMte, merge, reduce}
use frclib_nettables.Spec.MetaTopic.Laws.{reduce-merge}
use frclib_nettables.Spec.Subscription.{cares_about}
use frclib_nettables.Spec.Subscription.Matching.{IsChosen, cares_about_iff}
use frclib_nettables.Spec.Topic.{PublishProperties}
use frclib_nettables.Tests.Fixtures.{to_a}

decodes_twenty : from_u8 20 ≡ some string_array
unfolding from_u8
decodes_twenty = refl

cares_about_iff_example : (cares_about to_a (codes "a") ≡ true) ↔ IsChosen to_a (codes "a")
cares_about_iff_example = cares_about_iff to_a (codes "a")

abbrev first_client : ClientMte
first_client = record { id = codes "one"; conn = codes "x" }

abbrev second_client : ClientMte
second_client = record { id = codes "two"; conn = codes "y" }

reduce-merge_example :
    reduce
      (merge (client (first_client ∷ [])) (client (second_client ∷ [])))
      (client (second_client ∷ []))
    ≡ client (first_client ∷ [])
unfolding Text-discrete
reduce-merge_example = reduce-merge (client (first_client ∷ [])) (client (second_client ∷ [])) refl

abbrev history : List (ℕ × ServerSendableValue ℕ)
history =
    (0, normal_value (record { timestamp = 1; value = 10 }))
    ∷ (1, normal_value (record { timestamp = 2; value = 20 }))
    ∷ (0, normal_value (record { timestamp = 3; value = 30 }))
    ∷ []

take_values-all_example :
    lookup 0 (take_values (add_all history new_all)).0 ≡ entry (values_of 0 history)
take_values-all_example = take_values-all 0 history

take_values-one_example :
    lookup 0 (take_values (add_all history new_one)).0 ≡ single (last_value (values_of 0 history))
take_values-one_example = take_values-one 0 history

abbrev at : ℕ → ℕ → TimestampedValue ℕ
at t v = record { timestamp = t; value = v }

latest_of-newest_example :
    In (latest_of (at 3 30) (at 5 50 ∷ at 4 40 ∷ [])) (at 3 30 ∷ at 5 50 ∷ at 4 40 ∷ [])
    × All
        (λ u. u.timestamp ≤ (latest_of (at 3 30) (at 5 50 ∷ at 4 40 ∷ [])).timestamp)
        (at 3 30 ∷ at 5 50 ∷ at 4 40 ∷ [])
latest_of-newest_example = latest_of-newest (at 3 30) (at 5 50 ∷ at 4 40 ∷ [])

abbrev kept : PublishProperties
kept = record { persistent = none; retained = some true }

abbrev stored : PublishProperties
stored = record { persistent = some true; retained = none }

new-IsInverse : IsInverse new
unfolding get_by_left get_by_right lookup
new-IsInverse = record { forth = λ l r h. ground arith; back = λ l r h. ground arith }

nothing_left : get_by_left 5 new ≡ none
unfolding get_by_left lookup
nothing_left = refl

nothing_right : get_by_right 9 new ≡ none
unfolding get_by_right lookup
nothing_right = refl

abbrev one_pair : PrimBiMap
one_pair = (insert_pair 5 9 new).1

found_nine : get_by_left 5 one_pair ≡ some 9
unfolding get_by_left insert_pair lookup insert ℕ_discrete
found_nine = refl

one_pair-IsInverse : IsInverse one_pair
one_pair-IsInverse = insert_pair-IsInverse 5 9 new new-IsInverse nothing_left nothing_right

remove_by_left-stale_example :
    let (found, b) = remove_by_left 5 one_pair in
    (found ≡ some 9) × (get_by_left 5 b ≡ none) × (get_by_right 9 b ≡ some 5) × (¬ IsInverse b)
remove_by_left-stale_example = remove_by_left-stale 5 9 one_pair one_pair-IsInverse found_nine
