-- ===== src/Tests/Handles.antt =====
-- The server's handle at concrete inputs.
use frclib_nettables.Base.{
  ℕ, ◌≡◌, refl, sym, subst, List, ap, ◌∙◌, none, some, [], ◌∷◌, arith, inl, inr, In, ℕ_discrete,
}
use frclib_nettables.Base.Map.{nat_key, text_key, lookup}
use frclib_nettables.Base.Text.{Text, Text-discrete, codes, contains, starts_with}
use frclib_nettables.Server.Handles.{publish_topic_w_props}
use frclib_nettables.Server.Handles.Effects.{publish_topic_w_props-value}
use frclib_nettables.Server.Invariant.{IsWf}
use frclib_nettables.Server.State.{InnerServer}
use frclib_nettables.Server.State.Holds.{Holds}
use frclib_nettables.Server.Values.{get_value, latest}
use frclib_nettables.Spec.Error.{ok}
use frclib_nettables.Spec.Topic.{Topic}
use frclib_nettables.Tests.Fixtures.{wire, sample, topic_a}

-- One topic with a value.
abbrev one_topic : InnerServer ℕ
one_topic = record sample {
  topics = (0, topic_a) ∷ [];
  topic_map = (codes "a", 0) ∷ [];
  topic_sub_map = (0, []) ∷ [];
  subscriptions = [];
  sub_values = [];
  sub_send_timestamps = [];
}

found : (i : ℕ) (t : Topic) → lookup i one_topic.topics ≡ some t → (i ≡ 0) × (t ≡ topic_a)
unfolding lookup ℕ_discrete
found i t e = ground arith

mapped : (i : ℕ) (n : Text) → In (n, i) one_topic.topic_map → (n ≡ codes "a") × (i ≡ 0)
mapped i n (inl e) = (ap (λ (x : Text × ℕ). x.0) e, ap (λ (x : Text × ℕ). x.1) e)
mapped i n (inr m) = absurd m

empty_list : (i j : ℕ) (subs : List ℕ) → In (i, subs) one_topic.topic_sub_map → In j subs → ⊥
empty_list i j subs (inl e) k = subst (In j) (ap (λ (x : ℕ × List ℕ). x.1) e) k
empty_list i j subs (inr m) k = absurd m

one_topic-IsWf : IsWf one_topic
unfolding lookup ℕ_discrete
one_topic-IsWf = record {
  name_of = λ i n t m e. ap (λ (x : Topic). x.name) (found i t e).1 ∙ sym (mapped i n m).0;
  named_once = λ i n m p q. (mapped i n p).0 ∙ sym (mapped i m q).0;
  mapped_fresh = λ i n m. omega (arith, (mapped i n m).1);
  topics_fresh = λ i t e. omega (arith, (found i t e).0);
  mapped_subs = λ i n m e. ground (arith, (mapped i n m).1);
  topics_subs = λ i t e f. ground (arith, (found i t e).0);
  listed = λ i j subs m k. absurd (empty_list i j subs m k);
  stored = λ j x m. absurd m;
  stamped = λ j x m. absurd m;
}

publish_topic_w_props-value_example :
    Holds
      (λ _ t. get_value 0 t ≡ (
        ok (latest (lookup 0 one_topic.topic_value_map) (record { timestamp = 100; value = 7 })),
        t,
      ))
      (λ t. t.topic_value_map ≡ one_topic.topic_value_map)
      (publish_topic_w_props wire 3 100 (codes "a") 7 none one_topic)
unfolding lookup ℕ_discrete Text-discrete contains starts_with
publish_topic_w_props-value_example =
    publish_topic_w_props-value wire 3 100 (codes "a") 7 none 3 0 topic_a one_topic (omega arith)
      (one_topic-IsWf, omega arith) refl refl refl
