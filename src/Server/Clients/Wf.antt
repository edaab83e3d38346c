-- ===== src/Server/Clients/Wf.antt =====
-- Connecting, disconnecting and starting in server/inner.rs keep the invariant and never panic.
use frclib_nettables.Base.{
  ℕ, ◌+◌, ◌^◌, ◌<◌, ◌≤◌, Bool, true, false, Option, none, some, List, [], ◌∷◌, arith, Bool-cases,
  inl, inr, ◌==◌, if◌then◌else◌,
}
use frclib_nettables.Base.Map.{nat_key, lookup}
use frclib_nettables.Base.Net.{SocketAddr}
use frclib_nettables.Server.Clients.{
  count_down, leave_topic, leave_topics, remove_metatopics, disconnect_client, connect_client,
  empty_server, add_metatopics, try_new,
}
use frclib_nettables.Server.Invariant.{Wf}
use frclib_nettables.Server.State.{InnerServer, pure, fail}
use frclib_nettables.Server.State.Holds.{
  Holds, Keeps, Holds-bind, Holds-ok_or, Holds-pure, Holds-fail, Holds-gets, Holds-modify,
  Holds-weaken,
}
use frclib_nettables.Server.Topics.Wf.{IsWfTo, add_topic-IsWf, remove_topic-IsWf}
use frclib_nettables.Server.Util.{ClientIdentity, next_client_idx}
use frclib_nettables.Server.Topics.{add_topic}
use frclib_nettables.Spec.Error.{NtServerError}
use frclib_nettables.Spec.Topic.{Topic}
use frclib_nettables.Spec.Wire.{Wire}

module _ {V : Type 0} (n : ℕ) where
  leave_topic-IsWf :
      (i : ℕ) (count : Option ℕ) (s : InnerServer V)
      → IsWfTo n s
      → Keeps (IsWfTo n) (leave_topic i count s)
  unfolding leave_topic
  leave_topic-IsWf i none s v = Holds-pure _ _ v
  leave_topic-IsWf i (some count) s v =
      Holds-modify _ _ s (elim (Bool-cases (count_down count == 0)) [
        | inl last ↦ rw last (remove_topic-IsWf i n _ v)
        | inr more ↦ rw more (Holds-pure _ _ v)
      ])

  leave_topics-IsWf :
      (l : List (ℕ × ℕ)) (s : InnerServer V) → IsWfTo n s → Keeps (IsWfTo n) (leave_topics l s)
  unfolding leave_topics
  leave_topics-IsWf [] s v = Holds-pure _ _ v
  leave_topics-IsWf ((p, i) ∷ l) s v = Holds-gets _ _ s (
      Holds-bind (λ _ t. IsWfTo n t) _ _ s (leave_topic-IsWf i _ s v)
        λ _ t u. leave_topics-IsWf l t u)

  remove_metatopics-IsWf :
      (idxs : Option (ℕ × ℕ)) (s : InnerServer V)
      → IsWfTo n s
      → Keeps (IsWfTo n) (remove_metatopics idxs s)
  unfolding remove_metatopics
  remove_metatopics-IsWf none s v = Holds-pure _ _ v
  remove_metatopics-IsWf (some (p, q)) s v =
      Holds-bind (λ _ t. IsWfTo n t) _ _ s (remove_topic-IsWf p n s v)
        λ _ t u. remove_topic-IsWf q n t u

  -- From a well-formed server `disconnect_client` leads to a well-formed server, also where it
  -- fails half way, and never panics.
  pub disconnect_client-IsWf :
      (ident : ClientIdentity) (s : InnerServer V)
      → IsWfTo n s
      → Keeps (IsWfTo n) (disconnect_client ident s)
  unfolding disconnect_client
  disconnect_client-IsWf ident s v = Holds-gets _ _ s (
      Holds-modify _ _ s (
        Holds-ok_or _ _ _ _ (λ _. v)
          λ idx e. Holds-gets _ _ _ (
            Holds-modify _ _ _ (
              Holds-ok_or _ _ _ _ (λ _. v)
                λ connected f. Holds-modify _ _ _ (
                  Holds-bind (λ _ t. IsWfTo n t) _ _ _ (leave_topics-IsWf _ _ v)
                    λ _ t u.
                      Holds-gets _ _ t (Holds-modify _ _ t (remove_metatopics-IsWf _ _ u)))))))

  checked-IsWf :
      (b : Bool) (e : NtServerError) (s : InnerServer V)
      → IsWfTo n s
      → Keeps (IsWfTo n) ((if b then fail e else pure tt) s)
  checked-IsWf true e s v = Holds-fail _ _ v
  checked-IsWf false e s v = Holds-pure _ _ v

Wf-empty : (V : Type 0) → Wf {V = V} 0 [] [] [] [] [] []
unfolding lookup
Wf-empty V = record {
  name_of = λ i n t h e. absurd h;
  named_once = λ i n m h g. absurd h;
  mapped_fresh = λ i n h. absurd h;
  topics_fresh = λ i t e. ground arith;
  mapped_subs = λ i n h. absurd h;
  topics_subs = λ i t e. ground arith;
  listed = λ i j subs h g. absurd h;
  stored = λ j x h. absurd h;
  stamped = λ j x h. absurd h;
}

module _ {V : Type 0} (w : Wire V) where
  -- More room than asked for.
  add_topic_within :
      (topic : Topic) (n m : ℕ) (s : InnerServer V)
      → n + 3 ≤ m
      → m < 2 ^ 32
      → IsWfTo n s
      → Keeps (IsWfTo m) (add_topic w topic s)
  add_topic_within topic n m s less room v =
      Holds-weaken (λ _ t. IsWfTo (n + 3) t) (IsWfTo (n + 3)) _ (λ _ t u. (u.0, omega arith))
        (λ t u. (u.0, omega arith)) (add_topic-IsWf w topic n s (omega arith) v)

  -- From a well-formed server with room for six more topics, `connect_client` leads to a
  -- well-formed server with at most six more topics, whether it succeeds or fails, and never
  -- panics.
  pub connect_client-IsWf :
      (identity : ClientIdentity) (n : ℕ) (s : InnerServer V)
      → n + 6 < 2 ^ 32
      → IsWfTo n s
      → Keeps (IsWfTo (n + 6)) (connect_client w identity s)
  unfolding connect_client next_client_idx
  connect_client-IsWf identity n s room v = Holds-gets _ _ s (
      Holds-bind (λ _ t. IsWfTo n t) _ _ s
        (Holds-weaken (λ _ t. IsWfTo n t) (IsWfTo n) _ (λ _ t u. u) (λ t u. (u.0, omega arith))
          (checked-IsWf n _ _ s v))
        λ _ t u. Holds-modify _ _ t (
          Holds-gets _ _ _ (
            Holds-gets _ _ _ (
              Holds-modify _ _ _ (
                Holds-bind (λ _ x. IsWfTo (n + 3) x) _ _ _
                  (Holds-weaken (λ _ x. IsWfTo (n + 3) x) (IsWfTo (n + 3)) _ (λ _ x y. y)
                    (λ x y. (y.0, omega arith))
                    (add_topic_within _ n (n + 3) _ (omega arith) (omega arith) u))
                  λ i x y.
                    Holds-bind (λ _ x. IsWfTo (n + 6) x) _ _ x
                      (add_topic_within _ (n + 3) (n + 6) x (omega arith) room y)
                      λ j z q. Holds-modify _ _ z (Holds-pure _ _ q))))))

  add_metatopics-IsWf : (s : InnerServer V) → IsWfTo 0 s → Keeps (IsWfTo 9) (add_metatopics w s)
  unfolding add_metatopics
  add_metatopics-IsWf s v =
      Holds-bind (λ _ x. IsWfTo 3 x) _ _ s (within _ 0 3 s (omega arith) (omega arith) v)
        λ i t u.
          Holds-bind (λ _ x. IsWfTo 6 x) _ _ t (within _ 3 6 t (omega arith) (omega arith) u)
            λ i x y.
              Holds-bind (λ _ x. IsWfTo 9 x) _ _ x (within _ 6 9 x (omega arith) (omega arith) y)
                λ _ z q. Holds-pure _ _ q
    where
      within :
          (topic : Topic) (n m : ℕ) (s : InnerServer V)
          → n + 3 ≤ m
          → m ≤ 9
          → IsWfTo n s
          → Holds (λ _ t. IsWfTo m t) (IsWfTo 9) (add_topic w topic s)
      within topic n m s less top v =
          Holds-weaken (λ _ t. IsWfTo m t) (IsWfTo m) _ (λ _ t u. u) (λ t u. (u.0, omega arith))
            (add_topic_within topic n m s less (omega arith) v)

  -- `try_new` gives a well-formed server with at most nine topics, and does not panic.
  pub try_new-IsWf : (server_addr : SocketAddr) → Keeps (IsWfTo 9) (try_new w server_addr)
  unfolding try_new empty_server next_client_idx
  try_new-IsWf server_addr = add_metatopics-IsWf _ (Wf-empty V, omega arith)
