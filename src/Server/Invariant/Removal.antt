-- ===== src/Server/Invariant/Removal.antt =====
-- The invariant when topics, names and lists of subscriptions are taken out of the maps of
-- server/inner.rs.
use frclib_nettables.Base.{ℕ, ◌≡◌, ◌≢◌, refl, ◌⊎◌, inl, inr, none, some, List, In, arith}
use frclib_nettables.Base.Map.{Map, nat_key, text_key, lookup, remove, lookup-remove, In-remove}
use frclib_nettables.Base.Text.{Text}
use frclib_nettables.Server.Invariant.{Wf}
use frclib_nettables.Server.Util.{StoredSubValue}
use frclib_nettables.Spec.Subscription.{Subscription}
use frclib_nettables.Spec.Topic.{Topic}

module _ {V : Type 0} {next : ℕ} {topics : Map ℕ Topic} {topic_map : Map Text ℕ}
    {topic_sub_map : Map ℕ (List ℕ)} {subs : Map ℕ (Subscription × ℕ)}
    {vals : Map ℕ (StoredSubValue V)} {stamps : Map ℕ ℕ}
    (v : Wf next topics topic_map topic_sub_map subs vals stamps) where
  pub Wf-remove_topic : (k : ℕ) → Wf next (remove k topics) topic_map topic_sub_map subs vals stamps
  Wf-remove_topic k = record {
    name_of = λ i n t m e. ground (arith, lookup-remove k i topics, v.name_of i n t m);
    named_once = v.named_once;
    mapped_fresh = v.mapped_fresh;
    topics_fresh = λ i t e. ground (arith, lookup-remove k i topics, v.topics_fresh i t);
    mapped_subs = v.mapped_subs;
    topics_subs = λ i t e. ground (arith, lookup-remove k i topics, v.topics_subs i t);
    listed = v.listed;
    stored = v.stored;
    stamped = v.stamped;
  }

  pub Wf-remove_name :
      (k : Text) → Wf next topics (remove k topic_map) topic_sub_map subs vals stamps
  Wf-remove_name k = record {
    name_of = λ i n t m. v.name_of i n t (In-remove k n i topic_map m).1;
    named_once = λ i n m p q.
        v.named_once i n m (In-remove k n i topic_map p).1 (In-remove k m i topic_map q).1;
    mapped_fresh = λ i n m. v.mapped_fresh i n (In-remove k n i topic_map m).1;
    topics_fresh = v.topics_fresh;
    mapped_subs = λ i n m. v.mapped_subs i n (In-remove k n i topic_map m).1;
    topics_subs = v.topics_subs;
    listed = v.listed;
    stored = v.stored;
    stamped = v.stamped;
  }

  -- The list of a topic that neither an index nor a name leads to.
  Wf-remove_list :
      (k : ℕ)
      → lookup k topics ≡ none
      → ((n : Text) → ¬ In (n, k) topic_map)
      → Wf next topics topic_map (remove k topic_sub_map) subs vals stamps
  Wf-remove_list k absent unnamed = record {
    name_of = v.name_of;
    named_once = v.named_once;
    mapped_fresh = v.mapped_fresh;
    topics_fresh = v.topics_fresh;
    mapped_subs =
        λ i n m. ground (arith, lookup-remove k i topic_sub_map, v.mapped_subs i n m, unnamed n);
    topics_subs = λ i t e. ground (arith, lookup-remove k i topic_sub_map, v.topics_subs i t e);
    listed = λ i j l m. v.listed i j l (In-remove k i l topic_sub_map m).1;
    stored = v.stored;
    stamped = v.stamped;
  }

-- What is left once a topic, its name, its metatopics and their names are taken out.
abbrev left : Text → Text → Text → Map Text ℕ → Map Text ℕ
left n pn sn topic_map = remove n (remove sn (remove pn topic_map))

abbrev rest : ℕ → ℕ → ℕ → Map ℕ Topic → Map ℕ Topic
rest i p s topics = remove s (remove p (remove i topics))

left-In :
    (n pn sn : Text) (topic_map : Map Text ℕ) (m : Text) (j : ℕ)
    → In (m, j) (left n pn sn topic_map)
    → (n ≢ m) × (sn ≢ m) × (pn ≢ m) × In (m, j) topic_map
left-In n pn sn topic_map m j h =
    let a = In-remove n m j (remove sn (remove pn topic_map)) h in
    let b = In-remove sn m j (remove pn topic_map) a.1 in
    let c = In-remove pn m j topic_map b.1 in (a.0, b.0, c.0, c.1)

rest-none :
    (i p s : ℕ) (topics : Map ℕ Topic) (k : ℕ)
    → (k ≡ i) ⊎ (k ≡ p) ⊎ (k ≡ s)
    → lookup k (rest i p s topics) ≡ none
rest-none i p s topics k h = ground (
  arith,
  lookup-remove s k (remove p (remove i topics)),
  lookup-remove p k (remove i topics),
  lookup-remove i k topics,
)

-- The lists of a topic and of its two metatopics go once the maps hold none of them.
module _ {V : Type 0} {next : ℕ} {topics : Map ℕ Topic} {topic_map : Map Text ℕ}
    {topic_sub_map : Map ℕ (List ℕ)} {subs : Map ℕ (Subscription × ℕ)}
    {vals : Map ℕ (StoredSubValue V)} {stamps : Map ℕ ℕ}
    (v : Wf next topics topic_map topic_sub_map subs vals stamps) (i p s : ℕ) (n pn sn : Text)
    (topic : Topic) (here : lookup i topics ≡ some topic) (name : topic.name ≡ n)
    (pub_here : In (pn, p) topic_map) (sub_here : In (sn, s) topic_map) where
  pub Wf-forget :
      Wf next
        (remove s (remove p (remove i topics)))
        (remove n (remove sn (remove pn topic_map)))
        (remove s (remove p (remove i topic_sub_map)))
        subs
        vals
        stamps
  Wf-forget =
      Wf-remove_list
        (Wf-remove_list (Wf-remove_list cleared i (rest-none i p s topics i (inl refl)) no_i) p
          (rest-none i p s topics p (inr (inl refl))) no_p)
        s (rest-none i p s topics s (inr (inr refl))) no_s
    where
      cleared : Wf next (rest i p s topics) (left n pn sn topic_map) topic_sub_map subs vals stamps
      cleared =
          Wf-remove_topic
            (Wf-remove_topic
              (Wf-remove_topic (Wf-remove_name (Wf-remove_name (Wf-remove_name v pn) sn) n) i) p)
            s

      no_i : (m : Text) → ¬ In (m, i) (left n pn sn topic_map)
      no_i m h = ground (arith, left-In n pn sn topic_map m i h, v.name_of i m topic)

      no_p : (m : Text) → ¬ In (m, p) (left n pn sn topic_map)
      no_p m h = ground (arith, left-In n pn sn topic_map m p h, v.named_once p m pn)

      no_s : (m : Text) → ¬ In (m, s) (left n pn sn topic_map)
      no_s m h = ground (arith, left-In n pn sn topic_map m s h, v.named_once s m sn)
