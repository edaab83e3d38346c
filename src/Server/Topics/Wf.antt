-- ===== src/Server/Topics/Wf.antt =====
-- Adding and removing a topic in server/inner.rs keeps the invariant and never panics.
use frclib_nettables.Base.{
  ℕ, zero, suc, ◌+◌, ◌%◌, ◌^◌, ◌≤◌, ◌<◌, ◌≡◌, refl, sym, subst, true, Option, none, some, arith,
  Option-cases, Bool-cases, inl, inr, In,
}
use frclib_nettables.Base.Map.{nat_key, text_key, lookup, remove, In-of_lookup, In-remove}
use frclib_nettables.Base.Text.{Text, contains}
use frclib_nettables.Server.Announce.{announce_topic}
use frclib_nettables.Server.Announce.Frame.{announce_topic-Frame}
use frclib_nettables.Server.Invariant.{IsWf}
use frclib_nettables.Server.Invariant.Register.{Wf-register}
use frclib_nettables.Server.Invariant.Removal.{Wf-remove_topic, Wf-remove_name, Wf-forget}
use frclib_nettables.Server.State.{InnerServer, pure, ◌>>◌}
use frclib_nettables.Server.State.Frame.{Frame}
use frclib_nettables.Server.State.Holds.{
  Keeps, Holds-bind, Holds-ok_or, Holds-pure, Holds-gets, Holds-modify, Holds-weaken,
}
use frclib_nettables.Server.Topics.{
  is_meta_name, meta_pub_name, meta_sub_name, register, announce_added, add_topic_fuel, add_topic,
  unmap, forget_topics, remove_topic,
}
use frclib_nettables.Spec.Topic.{Topic, new_meta}
use frclib_nettables.Spec.Wire.{Wire}

-- The invariant, and at most `limit` topics ever added.
abbrev pub IsWfTo : {V : Type 0} → ℕ → InnerServer V → Type 0
IsWfTo limit s = IsWf s × (s.counters.topic_idx ≤ limit)

pub meta_pub_name-is_meta : (name : Text) → is_meta_name (meta_pub_name name) ≡ true
unfolding contains
meta_pub_name-is_meta name = refl

pub meta_sub_name-is_meta : (name : Text) → is_meta_name (meta_sub_name name) ≡ true
unfolding contains
meta_sub_name-is_meta name = refl

module _ {V : Type 0} where
  register-IsWfTo :
      (topic : Topic) (n : ℕ) (s : InnerServer V)
      → n + 1 < 2 ^ 32
      → IsWfTo n s
      → IsWfTo (n + 1) (register topic s)
  unfolding register
  register-IsWfTo topic n s room (v, bound) =
      (Wf-register v topic ((s.counters.topic_idx + 1) % 2 ^ 32) (omega arith), omega arith)

  -- From a well-formed server `remove_topic` leads to a well-formed server, also where it fails
  -- half way, and never panics.
  pub remove_topic-IsWf :
      (topic_idx n : ℕ) (s : InnerServer V)
      → IsWfTo n s
      → Keeps (IsWfTo n) (remove_topic topic_idx s)
  unfolding remove_topic
  remove_topic-IsWf i n s (v, bound) = Holds-gets _ _ s (
      Holds-ok_or _ _ _ s (λ _. (v, bound))
        λ topic here. Holds-modify _ _ s (
          Holds-gets _ _ _ (
            Holds-ok_or _ _ _ _ (λ _. (Wf-remove_topic v i, bound))
              λ p pub_here. Holds-modify _ _ _ (
                Holds-gets _ _ _ (
                  Holds-ok_or _ _ _ _
                    (λ _. (Wf-remove_name (Wf-remove_topic v i) (meta_pub_name topic.name), bound))
                    λ q sub_left. Holds-modify _ _ _ (
                      Holds-modify _ _ _ (
                        Holds-pure _ _ (
                          forgotten topic p q here (In-of_lookup _ _ _ pub_here)
                              (In-remove _ _ _ _ (In-of_lookup _ _ _ sub_left)).1,
                          bound,
                        ))))))))
    where
      forgotten :
          (topic : Topic) (p q : ℕ)
          → lookup i s.topics ≡ some topic
          → In (meta_pub_name topic.name, p) s.topic_map
          → In (meta_sub_name topic.name, q) s.topic_map
          → IsWf (
              forget_topics i p q (
                unmap topic.name (
                  unmap
                    (meta_sub_name topic.name)
                    (unmap (meta_pub_name topic.name) (record s { topics = remove i s.topics })))))
      forgotten topic p q here pub_here sub_here =
          Wf-forget v i p q topic.name _ _ topic here refl pub_here sub_here

  Frame-IsWfTo : (n : ℕ) (s t : InnerServer V) → IsWfTo n s → Frame s t → IsWfTo n t
  Frame-IsWfTo n s t v e = subst (IsWfTo n) (sym e) v

  module _ (w : Wire V) where
    -- A metatopic is entered, and nothing more is done for it.
    add_meta-IsWf :
        (fuel n : ℕ) (topic : Topic) (s : InnerServer V)
        → n + 1 < 2 ^ 32
        → is_meta_name topic.name ≡ true
        → IsWfTo n s
        → Keeps (IsWfTo (n + 1)) (add_topic_fuel w (suc fuel) topic s)
    unfolding add_topic_fuel
    add_meta-IsWf fuel n topic s room meta (v, bound) =
        elim (Option-cases (lookup topic.name s.topic_map)) [
          | inl e ↦
              rw (e, add_topic_fuel, meta)
                (Holds-pure _ _ (register-IsWfTo topic n s room (v, bound)))
          | inr (i, e) ↦ rw (e, add_topic_fuel) (Holds-pure _ _ (v, omega arith))
        ]

    pub announce_topic-IsWf :
        (i : ℕ) (response : Option (ℕ × ℕ)) (n : ℕ) (s : InnerServer V)
        → IsWfTo n s
        → Keeps (IsWfTo n) (announce_topic w i response s)
    announce_topic-IsWf i response n s v =
        Holds-weaken (λ _ t. Frame s t) (Frame s) _ (λ _ t e. Frame-IsWfTo n s t v e)
          (λ t e. Frame-IsWfTo n s t v e) (announce_topic-Frame w i response s)

    announce_added-IsWf :
        (fuel n : ℕ) (topic : Topic) (s : InnerServer V)
        → n + 1 < 2 ^ 32
        → is_meta_name topic.name ≡ true
        → IsWfTo n s
        → Keeps (IsWfTo (n + 1)) (announce_added w (add_topic_fuel w (suc fuel)) topic s)
    unfolding announce_added
    announce_added-IsWf fuel n topic s room meta v =
        Holds-bind (λ _ t. IsWfTo (n + 1) t) _ _ s (add_meta-IsWf fuel n topic s room meta v)
          λ i t u. announce_topic-IsWf i none (n + 1) t u

    -- The metatopics of a topic, once it is entered.
    add_both-IsWf :
        (fuel n : ℕ) (topic : Topic) (s : InnerServer V)
        → n + 3 < 2 ^ 32
        → IsWfTo (n + 1) s
        → {A : Type 0} (a : A)
        → Keeps (IsWfTo (n + 3)) (
            (do
              announce_added w (add_topic_fuel w (suc fuel)) (new_meta (meta_pub_name topic.name))
              announce_added w (add_topic_fuel w (suc fuel)) (new_meta (meta_sub_name topic.name))
              pure a)
              s)
    unfolding new_meta
    add_both-IsWf fuel n topic s room v a =
        Holds-bind (λ _ t. IsWfTo (n + 2) t) _ _ s
          (Holds-weaken (λ _ t. IsWfTo (n + 1 + 1) t) (IsWfTo (n + 1 + 1)) _
            (λ _ t u. (u.0, omega arith)) (λ t u. (u.0, omega arith))
            (announce_added-IsWf fuel (n + 1) (new_meta (meta_pub_name topic.name)) s (omega arith)
              (meta_pub_name-is_meta topic.name) v))
          λ _ t u.
            Holds-bind (λ _ x. IsWfTo (n + 3) x) _ _ t
              (Holds-weaken (λ _ x. IsWfTo (n + 2 + 1) x) (IsWfTo (n + 2 + 1)) _
                (λ _ x y. (y.0, omega arith)) (λ x y. (y.0, omega arith))
                (announce_added-IsWf fuel (n + 2) (new_meta (meta_sub_name topic.name)) t
                  (omega arith) (meta_sub_name-is_meta topic.name) u))
              λ _ x y. Holds-pure _ _ y

    -- Adding a topic keeps the invariant and never panics. It enters three topics at most.
    add_topic_fuel-IsWf :
        (fuel : ℕ) (topic : Topic) (n : ℕ) (s : InnerServer V)
        → n + 3 < 2 ^ 32
        → IsWfTo n s
        → Keeps (IsWfTo (n + 3)) (add_topic_fuel w (suc (suc fuel)) topic s)
    unfolding add_topic_fuel
    add_topic_fuel-IsWf fuel topic n s room v =
        elim (Option-cases (lookup topic.name s.topic_map)) [
          | inr (i, e) ↦ rw (e, add_topic_fuel) (Holds-pure _ _ (v.0, omega arith))
          | inl e ↦ elim (Bool-cases (is_meta_name topic.name)) [
            | inl meta ↦
                let u = register-IsWfTo topic n s (omega arith) v in
                rw (e, add_topic_fuel, meta) (Holds-pure _ _ (u.0, omega arith))
            | inr plain ↦
                rw (e, add_topic_fuel, plain)
                  (add_both-IsWf fuel n topic (register topic s) room
                    (register-IsWfTo topic n s (omega arith) v) _)
          ]
        ]

    -- From a well-formed server with room for three more topics, `add_topic` leads to a well-formed
    -- server with at most three more topics, whether it succeeds or fails, and never panics.
    pub add_topic-IsWf :
        (topic : Topic) (n : ℕ) (s : InnerServer V)
        → n + 3 < 2 ^ 32
        → IsWfTo n s
        → Keeps (IsWfTo (n + 3)) (add_topic w topic s)
    unfolding add_topic
    add_topic-IsWf topic n s room v = add_topic_fuel-IsWf zero topic n s room v
