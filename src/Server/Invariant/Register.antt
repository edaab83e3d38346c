-- ===== src/Server/Invariant/Register.antt =====
-- The invariant when a topic is entered in the maps, as `add_topic` of server/inner.rs does.
use frclib_nettables.Base.{ℕ, ◌<◌, List, [], arith}
use frclib_nettables.Base.Map.{Map, nat_key, text_key, insert, lookup-insert, In-insert}
use frclib_nettables.Base.Text.{Text}
use frclib_nettables.Server.Invariant.{Wf}
use frclib_nettables.Server.Util.{StoredSubValue}
use frclib_nettables.Spec.Subscription.{Subscription}
use frclib_nettables.Spec.Topic.{Topic}

module _ {V : Type 0} {next : ℕ} {topics : Map ℕ Topic} {topic_map : Map Text ℕ}
    {topic_sub_map : Map ℕ (List ℕ)} {subs : Map ℕ (Subscription × ℕ)}
    {vals : Map ℕ (StoredSubValue V)} {stamps : Map ℕ ℕ}
    (v : Wf next topics topic_map topic_sub_map subs vals stamps) (topic : Topic) where
  pub Wf-register :
      (next' : ℕ)
      → next < next'
      → Wf next'
          (insert next topic topics)
          (insert topic.name next topic_map)
          (insert next [] topic_sub_map)
          subs
          vals
          stamps
  Wf-register next' up = record {
    name_of = λ i n t m e. ground (
      arith,
      In-insert topic.name n next i topic_map m,
      lookup-insert next i topic topics,
      v.name_of i n t,
      v.mapped_fresh i n,
    );
    named_once = λ i n m p q. ground (
      arith,
      In-insert topic.name n next i topic_map p,
      In-insert topic.name m next i topic_map q,
      v.named_once i n m,
      v.mapped_fresh i n,
      v.mapped_fresh i m,
    );
    mapped_fresh =
        λ i n m. ground (arith, In-insert topic.name n next i topic_map m, v.mapped_fresh i n);
    topics_fresh = λ i t e. ground (arith, lookup-insert next i topic topics, v.topics_fresh i t);
    mapped_subs = λ i n m e. ground (
      arith,
      In-insert topic.name n next i topic_map m,
      lookup-insert next i [] topic_sub_map,
      v.mapped_subs i n,
    );
    topics_subs = λ i t e f. ground (
      arith,
      lookup-insert next i topic topics,
      lookup-insert next i [] topic_sub_map,
      v.topics_subs i t,
    );
    listed = λ i j l m k. ground (arith, In-insert next i [] l topic_sub_map m, v.listed i j l);
    stored = v.stored;
    stamped = v.stamped;
  }
