-- ===== src/Server/Subscribe/Wf.antt =====
-- `subscribe` and `unsubscribe` of server/inner.rs keep the invariant and never panic.
use frclib_nettables.Base.{
  ℕ, ◌≡◌, ◌≢◌, refl, subst, ap, ◌≤◌, ◌⊎◌, inl, inr, not, none, some, List, [], ◌∷◌, ◌++◌, In,
  In-retain, arith, ◌==◌, if◌then◌else◌, Option-cases,
}
use frclib_nettables.Base.Map.{Map, nat_key, text_key, lookup, insert, lookup-insert}
use frclib_nettables.Base.Text.{Text}
use frclib_nettables.BiMap.{insert_pair}
use frclib_nettables.Server.Connected.{ConnectedClient, send_nt_messages}
use frclib_nettables.Server.Connected.Quiet.{send_nt_messages-quiet, send_binary-quiet}
use frclib_nettables.Server.Invariant.{Wf}
use frclib_nettables.Server.Invariant.Stores.{
  Wf-stores, lookup-adjust_kept, lookup-insert_kept, lookup-insert_there,
}
use frclib_nettables.Server.Invariant.Subscriptions.{Leaves, Wf-join, Wf-enter, Wf-leave}
use frclib_nettables.Server.State.{InnerServer}
use frclib_nettables.Server.State.Holds.{
  Holds, Keeps, IsQuiet, Holds-bind, Holds-ok_or, Holds-pure, Holds-gets, Holds-modify,
  Holds-weaken, Holds-with_client, ok-ne-panicked,
}
use frclib_nettables.Server.Subscribe.{
  interested_topics, join_topic, join_topics, store_subscription, greet, subscribe, leave_all,
  unsubscribe, wants_all,
}
use frclib_nettables.Server.Topics.Wf.{IsWfTo}
use frclib_nettables.Server.Util.{StoredSubValue, new_all, new_one}
use frclib_nettables.Spec.Messages.{NtMessage, Subscribe, Unsubscribe}
use frclib_nettables.Spec.Subscription.{Subscription}
use frclib_nettables.Spec.Wire.{Wire, Bytes}

pub interested_topics-named :
    (sub : Subscription) (names : Map Text ℕ) (i : ℕ) (n : Text)
    → In (i, n) (interested_topics sub names)
    → In (n, i) names
unfolding interested_topics
interested_topics-named sub [] i n h = absurd h
interested_topics-named sub ((m, j) ∷ names) i n h =
    ground (arith, interested_topics-named sub names i n)

leave_all-kept :
    (k : ℕ) (m : Map ℕ (List ℕ)) (i : ℕ) → lookup i (leave_all k m) ≡ none → lookup i m ≡ none
unfolding leave_all lookup
leave_all-kept k [] i e = refl
leave_all-kept k ((t, l) ∷ m) i e = ground (arith, leave_all-kept k m i)

pub leave_all-shrunk :
    (k : ℕ) (m : Map ℕ (List ℕ)) (i j : ℕ) (l' : List ℕ)
    → In (i, l') (leave_all k m)
    → In j l'
    → (l : List ℕ) × In (i, l) m × In j l × (k ≢ j)
unfolding leave_all
leave_all-shrunk k [] i j l' h g = absurd h
leave_all-shrunk k ((t, l) ∷ m) i j l' (inl e) g =
    let (inside, other) =
      In-retain (λ elem. not (elem == k)) j l (subst (In j) (ap (λ (p : ℕ × List ℕ). p.1) e) g) in
    (l, inl (ground arith), inside, λ same. ground arith)
leave_all-shrunk k ((t, l) ∷ m) i j l' (inr h) g =
    let (l'', there, inside, other) = leave_all-shrunk k m i j l' h g in
    (l'', inr there, inside, other)

leave_all-Leaves : (k : ℕ) (m : Map ℕ (List ℕ)) → Leaves k m (leave_all k m)
leave_all-Leaves k m = record {
  kept = λ i h e. h (leave_all-kept k m i e);
  shrunk = leave_all-shrunk k m;
}

pub greet-IsQuiet :
    {V : Type 0} (w : Wire V) (subuid sub_idx : ℕ) (msgs : List NtMessage) (frames : Bytes)
    (c : ConnectedClient)
    → IsQuiet (greet w subuid sub_idx msgs frames c)
unfolding greet
greet-IsQuiet w subuid sub_idx msgs frames c h = ground (
  arith,
  send_nt_messages-quiet w msgs
      (record c { subuid_to_subidx = (insert_pair subuid sub_idx c.subuid_to_subidx).1 }),
  send_binary-quiet frames
      (send_nt_messages w msgs
        (record c { subuid_to_subidx = (insert_pair subuid sub_idx c.subuid_to_subidx).1 })).1,
)

module _ {V : Type 0} (w : Wire V) (now : ℕ) where
  -- The invariant while a new subscription joins its topics: it holds once the subscription has
  -- its store and its instant.
  abbrev Joining : ℕ → ℕ → StoredSubValue V → InnerServer V → Type 0
  Joining n k x s =
      Wf s.counters.topic_idx s.topics s.topic_map s.topic_sub_map s.subscriptions
        (insert k x s.sub_values) (insert k now s.sub_send_timestamps)
      × (s.counters.topic_idx ≤ n)

  abbrev Listed : List (ℕ × Text) → InnerServer V → Type 0
  Listed l s = (i : ℕ) (n : Text) → In (i, n) l → lookup i s.topic_sub_map ≢ none

  -- Every topic of the loop has its list, so the loop never fails.
  join_topics-Joining :
      (n k : ℕ) (x : StoredSubValue V) (l : List (ℕ × Text)) (s : InnerServer V)
      → Joining n k x s
      → Listed l s
      → Holds (λ _ t. Joining n k x t) (λ _. ⊥) (join_topics w k l s)
  unfolding join_topics
  join_topics-Joining n k x [] s v listed = Holds-pure _ _ v
  join_topics-Joining n k x ((i, name) ∷ rest) s v listed =
      Holds-bind (λ _ t. Joining n k x t × Listed rest t) _ _ s
        (joined (Option-cases (lookup i s.topic_sub_map)))
        λ _ t u. Holds-gets _ _ t (
          Holds-bind (λ _ y. Joining n k x y) _ _ t (join_topics-Joining n k x rest t u.0 u.1)
            λ _ y z. Holds-pure _ _ z)
    where
      joined :
          (lookup i s.topic_sub_map ≡ none) ⊎ ((l : List ℕ) × (lookup i s.topic_sub_map ≡ some l))
          → Holds (λ _ t. Joining n k x t × Listed rest t) (λ _. ⊥) (join_topic k i s)
      joined (inl e) = absurd (listed i name (inl refl) e)
      joined (inr (l, e)) =
          rw (e, join_topic)
            (Holds-pure _ _ (
              (Wf-join v.0 k i (λ f. ground (arith, lookup-insert k k x s.sub_values)), v.1),
              λ j m h.
                  lookup-adjust_kept i j (λ subs. subs ++ k ∷ []) s.topic_sub_map
                    (listed j m (inr h)),
            ))

  -- From a well-formed server `subscribe` leads to a well-formed server, whether it succeeds or
  -- fails, and never panics.
  pub subscribe-IsWf :
      (sub : Subscribe) (client_idx n : ℕ) (s : InnerServer V)
      → IsWfTo n s
      → Keeps (IsWfTo n) (subscribe w now sub client_idx s)
  unfolding subscribe
  subscribe-IsWf sub c n s v = Holds-gets _ _ s (
      Holds-ok_or _ _ _ s (λ _. v)
        λ connected e. Holds-gets _ _ s (
          Holds-gets _ _ s (
            Holds-modify _ _ s (
              Holds-bind (λ _ t. Joining n s.counters.sub_idx (store sub) t) _ _ _
                (Holds-weaken (λ _ t. Joining n s.counters.sub_idx (store sub) t) (λ _. ⊥) _
                  (λ _ t u. u) (λ t u. absurd u)
                  (join_topics-Joining n s.counters.sub_idx (store sub) _ _
                    (
                      Wf-stores v.0 _ _
                          (λ j. lookup-insert_kept s.counters.sub_idx j (store sub) s.sub_values)
                          (λ j. lookup-insert_kept s.counters.sub_idx j now s.sub_send_timestamps),
                      v.1,
                    )
                    (λ i m h. v.0.mapped_subs i m (interested_topics-named _ s.topic_map i m h))))
                λ (msgs, frames) t u. Holds-modify _ _ t (
                  Holds-with_client c _ _ _ (λ _. Holds-pure _ _ (entered t u))
                    (greet-IsQuiet w _ _ msgs frames) (λ _. entered t u) (λ _. entered t u))))))
    where
      store : Subscribe → StoredSubValue V
      store sub =
          if wants_all (record { subuid = sub.subuid; topics = sub.topics; options = sub.options })
          then new_all
          else new_one

      entered :
          (t : InnerServer V)
          → Joining n s.counters.sub_idx (store sub) t
          → IsWfTo n (
              store_subscription now s.counters.sub_idx
                (record { subuid = sub.subuid; topics = sub.topics; options = sub.options })
                c
                t)
      entered t u = (
        Wf-enter u.0 s.counters.sub_idx _
            (lookup-insert_there s.counters.sub_idx (store sub) t.sub_values)
            (lookup-insert_there s.counters.sub_idx now t.sub_send_timestamps),
        u.1,
      )

module _ {V : Type 0} where
  -- From a well-formed server `unsubscribe` leads to a well-formed server, whether it succeeds or
  -- fails, and never panics.
  pub unsubscribe-IsWf :
      (unsub : Unsubscribe) (client_idx n : ℕ) (s : InnerServer V)
      → IsWfTo n s
      → Keeps (IsWfTo n) (unsubscribe unsub client_idx s)
  unfolding unsubscribe
  unsubscribe-IsWf unsub c n s v = Holds-gets _ _ s (
      Holds-ok_or _ _ _ s (λ _. v)
        λ connected e.
          Holds-bind (λ _ t. IsWfTo n t) _ _ s
            (Holds-with_client c _ _ s (λ _. Holds-pure _ _ v) (λ _. ok-ne-panicked) (λ _. v)
              (λ _. v))
            λ _ t u.
              Holds-ok_or _ _ _ t (λ _. u)
                λ k f. Holds-pure _ _ (Wf-leave u.0 k _ (leave_all-Leaves k t.topic_sub_map), u.1))
