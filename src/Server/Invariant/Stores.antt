-- ===== src/Server/Invariant/Stores.antt =====
-- The invariant when the topics, the stores of values or the instants of server/inner.rs change.
use frclib_nettables.Base.{ℕ, ◌≡◌, ◌≢◌, ◌⊎◌, inl, inr, none, some, List, arith, Option-cases}
use frclib_nettables.Base.Map.{Map, nat_key, lookup, insert, adjust, lookup-insert, lookup-adjust}
use frclib_nettables.Base.Text.{Text}
use frclib_nettables.Server.Invariant.{Wf}
use frclib_nettables.Server.Util.{StoredSubValue}
use frclib_nettables.Spec.Subscription.{Subscription}
use frclib_nettables.Spec.Topic.{Topic}

-- Where an entry of an adjusted map comes from.
adjust-origin :
    {A : Type 0} (k j : ℕ) (f : A → A) (m : Map ℕ A) (a : A)
    → lookup j (adjust k f m) ≡ some a
    → (b : A) × (lookup j m ≡ some b) × ((a ≡ b) ⊎ (a ≡ f b))
adjust-origin k j f m a h = elim (Option-cases (lookup j m)) [
  | inl e ↦ absurd (ground (arith, lookup-adjust k j f m))
  | inr (b, e) ↦ (b, e, ground (arith, lookup-adjust k j f m))
]

module _ {V : Type 0} {next : ℕ} {topics : Map ℕ Topic} {topic_map : Map Text ℕ}
    {topic_sub_map : Map ℕ (List ℕ)} {subs : Map ℕ (Subscription × ℕ)}
    {vals : Map ℕ (StoredSubValue V)} {stamps : Map ℕ ℕ}
    (v : Wf next topics topic_map topic_sub_map subs vals stamps) where
  -- Other stores and instants, none of them lost.
  pub Wf-stores :
      (vals' : Map ℕ (StoredSubValue V)) (stamps' : Map ℕ ℕ)
      → ((j : ℕ) → lookup j vals ≢ none → lookup j vals' ≢ none)
      → ((j : ℕ) → lookup j stamps ≢ none → lookup j stamps' ≢ none)
      → Wf next topics topic_map topic_sub_map subs vals' stamps'
  Wf-stores vals' stamps' keep stamp = record {
    name_of = v.name_of;
    named_once = v.named_once;
    mapped_fresh = v.mapped_fresh;
    topics_fresh = v.topics_fresh;
    mapped_subs = v.mapped_subs;
    topics_subs = v.topics_subs;
    listed = λ i j l m k. keep j (v.listed i j l m k);
    stored = λ j x m. keep j (v.stored j x m);
    stamped = λ j x m. stamp j (v.stamped j x m);
  }

  -- Topics that keep their names.
  pub Wf-adjust_topic :
      (k : ℕ) (f : Topic → Topic)
      → ((t : Topic) → (f t).name ≡ t.name)
      → Wf next (adjust k f topics) topic_map topic_sub_map subs vals stamps
  Wf-adjust_topic k f same = record {
    name_of = λ i n t m e.
        let (b, there, from) = adjust-origin k i f topics t e in
        ground (arith, v.name_of i n b m there, same b);
    named_once = v.named_once;
    mapped_fresh = v.mapped_fresh;
    topics_fresh = λ i t e.
        v.topics_fresh i (adjust-origin k i f topics t e).0 (adjust-origin k i f topics t e).1;
    mapped_subs = v.mapped_subs;
    topics_subs = λ i t e.
        v.topics_subs i (adjust-origin k i f topics t e).0 (adjust-origin k i f topics t e).1;
    listed = v.listed;
    stored = v.stored;
    stamped = v.stamped;
  }

pub lookup-adjust_kept :
    {A : Type 0} (k j : ℕ) (f : A → A) (m : Map ℕ A)
    → lookup j m ≢ none
    → lookup j (adjust k f m) ≢ none
lookup-adjust_kept k j f m h e = ground (arith, lookup-adjust k j f m)

pub lookup-insert_kept :
    {A : Type 0} (k j : ℕ) (a : A) (m : Map ℕ A)
    → lookup j m ≢ none
    → lookup j (insert k a m) ≢ none
lookup-insert_kept k j a m h e = ground (arith, lookup-insert k j a m)

pub lookup-insert_there :
    {A : Type 0} (k : ℕ) (a : A) (m : Map ℕ A) → lookup k (insert k a m) ≢ none
lookup-insert_there k a m e = ground (arith, lookup-insert k k a m)
