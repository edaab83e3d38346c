-- ===== src/Server/Invariant/Subscriptions.antt =====
-- The invariant when a subscription joins or leaves the topics of server/inner.rs.
use frclib_nettables.Base.{
  ℕ, ◌≡◌, ◌≢◌, ◌⊎◌, inl, inr, none, List, [], ◌∷◌, ◌++◌, In, In-append, arith,
}
use frclib_nettables.Base.Map.{
  Map, nat_key, text_key, lookup, insert, remove, adjust, lookup-remove, In-insert, In-remove,
  In-adjust,
}
use frclib_nettables.Base.Text.{Text}
use frclib_nettables.Server.Invariant.{Wf}
use frclib_nettables.Server.Invariant.Stores.{lookup-adjust_kept}
use frclib_nettables.Server.Util.{StoredSubValue}
use frclib_nettables.Spec.Subscription.{Subscription}
use frclib_nettables.Spec.Topic.{Topic}

-- A list of lists without one subscription: `leave` is what `unsubscribe` does to every list.
pub record Leaves (k : ℕ) (m m' : Map ℕ (List ℕ)) : Type 0 where
  pub kept : (i : ℕ) → lookup i m ≢ none → lookup i m' ≢ none
  pub shrunk :
      (i j : ℕ) (l' : List ℕ)
      → In (i, l') m'
      → In j l'
      → (l : List ℕ) × In (i, l) m × In j l × (k ≢ j)

module _ {V : Type 0} {next : ℕ} {topics : Map ℕ Topic} {topic_map : Map Text ℕ}
    {topic_sub_map : Map ℕ (List ℕ)} {subs : Map ℕ (Subscription × ℕ)}
    {vals : Map ℕ (StoredSubValue V)} {stamps : Map ℕ ℕ}
    (v : Wf next topics topic_map topic_sub_map subs vals stamps) where
  -- A known subscription is put on a topic's list.
  pub Wf-join :
      (k topic_idx : ℕ)
      → lookup k vals ≢ none
      → Wf next topics topic_map
          (adjust topic_idx (λ l. l ++ k ∷ []) topic_sub_map)
          subs
          vals
          stamps
  Wf-join k topic_idx known = record {
    name_of = v.name_of;
    named_once = v.named_once;
    mapped_fresh = v.mapped_fresh;
    topics_fresh = v.topics_fresh;
    mapped_subs = λ i n m.
        lookup-adjust_kept topic_idx i (λ l. l ++ k ∷ []) topic_sub_map (v.mapped_subs i n m);
    topics_subs = λ i t e.
        lookup-adjust_kept topic_idx i (λ l. l ++ k ∷ []) topic_sub_map (v.topics_subs i t e);
    listed = λ i j l m h.
        let (l', there, from) = In-adjust topic_idx i (λ l. l ++ k ∷ []) topic_sub_map l m in
        joined j l' l from (v.listed i j l' there) h;
    stored = v.stored;
    stamped = v.stamped;
  }
    where
      joined :
          (j : ℕ) (l' l : List ℕ)
          → (l ≡ l') ⊎ (l ≡ l' ++ k ∷ [])
          → (In j l' → lookup j vals ≢ none)
          → In j l
          → lookup j vals ≢ none
      joined j l' l (inl e) old h = old (rw e at h)
      joined j l' l (inr e) old h = new (In-append j l' (k ∷ []) (rw e at h))
        where
          new : In j l' ⊎ In j (k ∷ []) → lookup j vals ≢ none
          new (inl m) = old m
          new (inr (inl e')) = rw e' known
          new (inr (inr m)) = absurd m

  -- A subscription that has its store and its instant is entered.
  pub Wf-enter :
      (k : ℕ) (x : Subscription × ℕ)
      → lookup k vals ≢ none
      → lookup k stamps ≢ none
      → Wf next topics topic_map topic_sub_map (insert k x subs) vals stamps
  Wf-enter k x known stamp = record {
    name_of = v.name_of;
    named_once = v.named_once;
    mapped_fresh = v.mapped_fresh;
    topics_fresh = v.topics_fresh;
    mapped_subs = v.mapped_subs;
    topics_subs = v.topics_subs;
    listed = v.listed;
    stored = λ j y m e. ground (arith, In-insert k j x y subs m, v.stored j y);
    stamped = λ j y m e. ground (arith, In-insert k j x y subs m, v.stamped j y);
  }

  -- A subscription goes from every map.
  pub Wf-leave :
      (k : ℕ) (topic_sub_map' : Map ℕ (List ℕ))
      → Leaves k topic_sub_map topic_sub_map'
      → Wf next topics topic_map topic_sub_map' (remove k subs) (remove k vals) (remove k stamps)
  Wf-leave k m' gone = record {
    name_of = v.name_of;
    named_once = v.named_once;
    mapped_fresh = v.mapped_fresh;
    topics_fresh = v.topics_fresh;
    mapped_subs = λ i n m. gone.kept i (v.mapped_subs i n m);
    topics_subs = λ i t e. gone.kept i (v.topics_subs i t e);
    listed = λ i j l m h e.
        let (l', there, inside, other) = gone.shrunk i j l m h in
        ground (arith, lookup-remove k j vals, v.listed i j l' there inside);
    stored =
        λ j y m e. ground (arith, In-remove k j y subs m, lookup-remove k j vals, v.stored j y);
    stamped =
        λ j y m e. ground (arith, In-remove k j y subs m, lookup-remove k j stamps, v.stamped j y);
  }
