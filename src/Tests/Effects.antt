-- ===== src/Tests/Effects.antt =====
-- What the operations of the server do, on a small server.
use frclib_nettables.Base.{
  arith, ℕ, ◌≡◌, ◌≢◌, ite, refl, sym, subst, ℕ_discrete, false, none, some, [], ◌∷◌, In, inl, inr,
}
use frclib_nettables.Base.Int.{pos, as_u32}
use frclib_nettables.Base.Map.{nat_key, text_key, lookup}
use frclib_nettables.Base.Text.{Text-discrete, codes, contains, starts_with}
use frclib_nettables.BiMap.{get_by_left}
use frclib_nettables.Server.Publish.{inner_publish_topic}
use frclib_nettables.Server.Publish.Effects.{SameTopics, inner_publish_topic-known}
use frclib_nettables.Server.Runner.{send_out, period_of}
use frclib_nettables.Server.Runner.Due.{IsDue, send_out-due}
use frclib_nettables.Server.State.Holds.{Holds}
use frclib_nettables.Server.Subscribe.{unsubscribe}
use frclib_nettables.Server.Subscribe.Effects.{IsForgotten, unsubscribe-forgets}
use frclib_nettables.Server.Topics.{
  is_meta_name, meta_pub_name, meta_sub_name, add_topic, add_topic_fuel, remove_topic,
}
use frclib_nettables.Server.Topics.Effects.{IsKnown, Kept, add_topic-enters, add_topic-again}
use frclib_nettables.Server.Topics.Removal.{remove_topic-forgets}
use frclib_nettables.Server.Topics.Fuel.{add_topic_fuel-enough}
use frclib_nettables.Server.Util.{normal_value}
use frclib_nettables.Server.Values.{set_value, get_value, latest}
use frclib_nettables.Server.Values.Effects.{received?, set_value-effect}
use frclib_nettables.Spec.Error.{ok}
use frclib_nettables.Spec.Extensions.{TimestampedValue}
use frclib_nettables.Spec.Messages.{PublishTopic}
use frclib_nettables.Spec.Subscription.{Subscription}
use frclib_nettables.Spec.Topic.{Topic}
use frclib_nettables.Tests.Fixtures.{wire, topic_a, to_a, client_one, sample}

abbrev topic_c : Topic
topic_c = record { name = codes "c"; type = codes "int"; properties = none }

unknown_c : lookup (codes "c") sample.topic_map ≡ none
unfolding lookup Text-discrete
unknown_c = refl

plain_c : is_meta_name (codes "c") ≡ false
unfolding contains starts_with
plain_c = refl

add_topic-enters_example :
    Holds
      (λ j t.
        (Kept sample t × (lookup (codes "c") t.topic_map ≡ some j))
        × (IsKnown (meta_pub_name (codes "c")) t × IsKnown (meta_sub_name (codes "c")) t))
      (λ t. Kept sample t × IsKnown (codes "c") t)
      (add_topic wire topic_c sample)
add_topic-enters_example = add_topic-enters wire topic_c sample unknown_c plain_c

add_topic-again_example :
    Holds
      (λ i t. add_topic wire topic_c t ≡ (ok i, t))
      (λ t. (i : ℕ) × (add_topic wire topic_c t ≡ (ok i, t)))
      (add_topic wire topic_c sample)
add_topic-again_example = add_topic-again wire topic_c sample

add_topic_fuel-enough_example : add_topic_fuel wire 5 topic_c sample ≡ add_topic wire topic_c sample
add_topic_fuel-enough_example = add_topic_fuel-enough wire 3 topic_c sample

topic_zero : lookup 0 sample.topics ≡ some topic_a
unfolding lookup ℕ_discrete
topic_zero = refl

pub_of_a : lookup (meta_pub_name (codes "a")) sample.topic_map ≡ some 1
unfolding lookup Text-discrete
pub_of_a = refl

sub_of_a : lookup (meta_sub_name (codes "a")) sample.topic_map ≡ some 2
unfolding lookup Text-discrete
sub_of_a = refl

remove_topic-forgets_example :
    Holds
      (λ _ t.
        (lookup 0 t.topics ≡ none)
        × (lookup 0 t.topic_value_map ≡ none)
        × (lookup 0 t.topic_sub_map ≡ none)
        × (lookup (codes "a") t.topic_map ≡ none)
        × (lookup (meta_pub_name (codes "a")) t.topic_map ≡ none)
        × (lookup (meta_sub_name (codes "a")) t.topic_map ≡ none))
      (λ _. ⊥)
      (remove_topic 0 sample)
remove_topic-forgets_example =
    remove_topic-forgets 0 1 2 topic_a sample topic_zero pub_of_a sub_of_a

abbrev sixty : TimestampedValue ℕ
sixty = record { timestamp = 6; value = 60 }

plain_a : is_meta_name (codes "a") ≡ false
unfolding contains starts_with
plain_a = refl

subs_of_a : lookup 0 sample.topic_sub_map ≡ some (0 ∷ [])
unfolding lookup ℕ_discrete
subs_of_a = refl

store_zero : (j : ℕ) → In j (0 ∷ []) → lookup j sample.sub_values ≢ none
unfolding lookup ℕ_discrete
store_zero j (inl e) = rw e (λ h. cc)
store_zero j (inr m) = absurd m

set_value-effect_example :
    Holds
      (λ _ t.
        (get_value 0 t ≡ (ok (latest (lookup 0 sample.topic_value_map) sixty), t))
        × ((k : ℕ)
            → lookup k t.topic_value_map
              ≡ ite
                  (nat_key.decide 0 k)
                  (some (latest (lookup 0 sample.topic_value_map) sixty))
                  (lookup k sample.topic_value_map))
        × ((j : ℕ)
            → lookup j t.sub_values
              ≡ received? 0 (normal_value sixty) j (0 ∷ []) (lookup j sample.sub_values))
        × (t ≡ record sample { sub_values = t.sub_values; topic_value_map = t.topic_value_map }))
      (λ _. ⊥)
      (set_value sixty 0 sample)
set_value-effect_example =
    set_value-effect sixty 0 sample topic_a (0 ∷ []) topic_zero plain_a subs_of_a store_zero

client_is_one : lookup 1 sample.clients ≡ some client_one
unfolding lookup ℕ_discrete
client_is_one = refl

holds_seven : get_by_left (as_u32 (pos 7)) client_one.subuid_to_subidx ≡ some 0
unfolding get_by_left as_u32 lookup ℕ_discrete
holds_seven = refl

unsubscribe-forgets_example :
    Holds (λ _ t. IsForgotten 0 t) (λ _. ⊥) (unsubscribe (record { subuid = pos 7 }) 1 sample)
unsubscribe-forgets_example =
    unsubscribe-forgets (record { subuid = pos 7 }) 1 0 client_one sample client_is_one holds_seven

known_a : lookup (codes "a") sample.topic_map ≡ some 0
unfolding lookup Text-discrete
known_a = refl

abbrev publish_a : PublishTopic
publish_a = record { name = codes "a"; pubuid = 8; type = codes "int"; properties = none }

inner_publish_topic-known_example :
    Holds
      (λ j t. (j ≡ 0) × SameTopics sample t)
      (SameTopics sample)
      (inner_publish_topic wire publish_a 1 sample)
inner_publish_topic-known_example = inner_publish_topic-known wire publish_a 1 0 sample known_a

zero-IsDue : IsDue 101000 sample 0 to_a
unfolding lookup ℕ_discrete period_of
zero-IsDue = (1000, refl, omega arith, omega arith, omega arith)

all-IsDue :
    (k c : ℕ) (sub : Subscription)
    → In (k, (sub, c)) sample.subscriptions
    → IsDue 101000 sample k sub
all-IsDue k c sub (inl e) =
    subst (λ (x : ℕ × (Subscription × ℕ)). IsDue 101000 sample x.0 x.1.0) (sym e) zero-IsDue
all-IsDue k c sub (inr m) = absurd m

send_out-due_example : send_out wire 101000 sample ≡ (ok tt, sample)
send_out-due_example = send_out-due wire 101000 sample all-IsDue
