-- ===== src/Server/Runner/Wf.antt =====
-- The tasks of server/runner.rs keep the invariant, and no message of a client ends one with a
-- panic.
use frclib_nettables.Base.{
  ℕ, ◌+◌, ◌*◌, ◌^◌, ◌<◌, ◌≤◌, ◌≡◌, ◌≢◌, refl, ap, sym, Option, none, some, List, [], ◌∷◌, length,
  arith, Option-cases, inl, inr, In,
}
use frclib_nettables.Base.Map.{nat_key, lookup}
use frclib_nettables.BiMap.{get_by_left}
use frclib_nettables.Server.Clients.{disconnect_client}
use frclib_nettables.Server.Publish.{inner_publish_topic, inner_unpublish_topic}
use frclib_nettables.Server.Subscribe.{subscribe, unsubscribe}
use frclib_nettables.Server.Values.{set_properties, set_value}
use frclib_nettables.Server.Clients.Wf.{disconnect_client-IsWf}
use frclib_nettables.Server.Publish.Wf.{inner_publish_topic-IsWf, inner_unpublish_topic-IsWf}
use frclib_nettables.Server.Runner.{
  Msgpack, warn, dispatch, dispatch_all, read_value, receive_value, receive_all, parse_in,
  parse_all,
}
use frclib_nettables.Server.State.{InnerServer, M}
use frclib_nettables.Server.State.Holds.{Holds, Keeps, Holds-bind, Holds-pure, Holds-weaken}
use frclib_nettables.Server.Subscribe.Wf.{subscribe-IsWf, unsubscribe-IsWf}
use frclib_nettables.Server.Topics.Wf.{IsWfTo}
use frclib_nettables.Server.Util.{ClientMsg}
use frclib_nettables.Server.Values.Wf.{set_value-IsWf, set_properties-IsWf}
use frclib_nettables.Spec.Error.{Outcome, ok, err, panicked}
use frclib_nettables.Spec.Messages.{
  NtMessage, announce, un_announce, publish, unpublish, subscribe as subscribe_msg,
  unsubscribe as unsubscribe_msg, properties, set_properties as set_properties_msg, close,
}
use frclib_nettables.Spec.Wire.{Wire, Bytes, Message, text, binary, ping, pong, close_frame}

-- What the task needs to go on: the invariant, and no panic. A failure is only a warning.
abbrev pub Calm : {V : Type 0} → ℕ → Outcome (Unit {0}) × InnerServer V → Type 0
Calm n r = Holds (λ _ t. IsWfTo n t) (λ _. ⊥) r

module _ {V : Type 0} where
  warned :
      {A : Type 0} (n m : ℕ) (r : Outcome A × InnerServer V)
      → n ≤ m
      → Keeps (IsWfTo n) r
      → Calm {V = V} m
          (elim r.0 [ ok a ↦ (ok tt, r.1) | err e ↦ (ok tt, r.1) | panicked ↦ (panicked, r.1) ])
  warned n m (ok a, t) less h = record { ends = (h.ends.0, omega arith) }
  warned n m (err e, t) less h = record { ends = (h.ends.0, omega arith) }
  warned n m (panicked, t) less h = absurd h.ends

  pub warn-Calm :
      {A : Type 0} (n k : ℕ) (m : M V A) (s : InnerServer V)
      → n ≤ k
      → Keeps (IsWfTo n) (m s)
      → Calm k (warn m s)
  unfolding warn
  warn-Calm n k m s less h = warned n k (m s) less h

module _ {V : Type 0} (w : Wire V) (client_idx : ℕ) where
  -- One message keeps the invariant and does not panic: it enters three topics at most.
  dispatch-IsWf :
      (now : ℕ) (msg : NtMessage) (n : ℕ) (s : InnerServer V)
      → n + 3 < 2 ^ 32
      → IsWfTo n s
      → Calm (n + 3) (dispatch w now client_idx msg s)
  unfolding dispatch
  dispatch-IsWf now (publish m) n s room v =
      warn-Calm (n + 3) (n + 3) (inner_publish_topic w m client_idx) s (omega arith)
        (inner_publish_topic-IsWf n w m client_idx s room v)
  dispatch-IsWf now (unpublish m) n s room v =
      warn-Calm n (n + 3) (inner_unpublish_topic m client_idx) s (omega arith)
        (inner_unpublish_topic-IsWf n m client_idx s v)
  dispatch-IsWf now (set_properties_msg m) n s room v =
      warn-Calm n (n + 3) (set_properties m) s (omega arith) (set_properties-IsWf n m s v)
  dispatch-IsWf now (subscribe_msg m) n s room v =
      warn-Calm n (n + 3) (subscribe w now m client_idx) s (omega arith)
        (subscribe-IsWf w now m client_idx n s v)
  dispatch-IsWf now (unsubscribe_msg m) n s room v =
      warn-Calm n (n + 3) (unsubscribe m client_idx) s (omega arith)
        (unsubscribe-IsWf m client_idx n s v)
  dispatch-IsWf now (close m) n s room v =
      warn-Calm n (n + 3) (disconnect_client (record { addr = m.addr; name = m.name })) s
        (omega arith) (disconnect_client-IsWf n (record { addr = m.addr; name = m.name }) s v)
  dispatch-IsWf now (announce m) n s room v = Holds-pure _ _ (v.0, omega arith)
  dispatch-IsWf now (un_announce m) n s room v = Holds-pure _ _ (v.0, omega arith)
  dispatch-IsWf now (properties m) n s room v = Holds-pure _ _ (v.0, omega arith)

  -- All messages of a text frame.
  dispatch_all-IsWf :
      (now : ℕ) (msgs : List NtMessage) (n : ℕ) (s : InnerServer V)
      → n + 3 * length msgs < 2 ^ 32
      → IsWfTo n s
      → Calm (n + 3 * length msgs) (dispatch_all w now client_idx msgs s)
  unfolding dispatch_all
  dispatch_all-IsWf now [] n s room v = Holds-pure _ _ (v.0, omega arith)
  dispatch_all-IsWf now (msg ∷ msgs) n s room v =
      Holds-bind (λ _ t. IsWfTo (n + 3) t) _ _ s (dispatch-IsWf now msg n s (omega arith) v)
        λ _ t u.
          Holds-weaken (λ _ t. IsWfTo (n + 3 + 3 * length msgs) t) (λ _. ⊥) _
            (λ _ t u. (u.0, omega arith)) (λ t h. h)
            (dispatch_all-IsWf now msgs (n + 3) t (omega arith) u)

module _ {R V : Type 0} (p : Msgpack R V) where
  -- The values of a frame that are arrays have an id, a timestamp and a value.
  abbrev pub IsReadable : List (Option (List R)) → Type 0
  IsReadable items = (array : List R) → In (some array) items → read_value p array ≢ none

  abbrev pub IsReceivable : ClientMsg → Type 0
  IsReceivable cmsg = (bytes : Bytes) → cmsg.msg ≡ binary bytes → IsReadable (p.read_all bytes)

module _ {R V : Type 0} (p : Msgpack R V) (client_idx : ℕ) where
  receive_value-IsWf :
      (item : Option (List R)) (n : ℕ) (s : InnerServer V)
      → ((array : List R) → item ≡ some array → read_value p array ≢ none)
      → IsWfTo n s
      → Calm n (receive_value p client_idx item s)
  unfolding receive_value
  receive_value-IsWf none n s readable v = Holds-pure _ _ v
  receive_value-IsWf (some array) n s readable v = elim (Option-cases (read_value p array)) [
    | inl e ↦ absurd (readable array refl e)
    | inr ((uid, time, value), e) ↦ elim (Option-cases (lookup client_idx s.clients)) [
      | inl f ↦ rw (e, receive_value, f) (Holds-pure _ _ v)
      | inr (connected, f) ↦ elim (Option-cases (get_by_left uid connected.pubuid_to_topicidx)) [
        | inl g ↦ rw (e, receive_value, f, g) (Holds-pure _ _ v)
        | inr (i, g) ↦
            rw (e, receive_value, f, g)
              (warn-Calm n n (set_value (record { timestamp = time; value = value }) i) s
                (omega arith) (set_value-IsWf n (record { timestamp = time; value = value }) i s v))
      ]
    ]
  ]

  -- All values of a binary frame.
  receive_all-IsWf :
      (items : List (Option (List R))) (n : ℕ) (s : InnerServer V)
      → IsReadable p items
      → IsWfTo n s
      → Calm n (receive_all p client_idx items s)
  unfolding receive_all
  receive_all-IsWf [] n s readable v = Holds-pure _ _ v
  receive_all-IsWf (item ∷ items) n s readable v =
      Holds-bind (λ _ t. IsWfTo n t) _ _ s
        (receive_value-IsWf item n s (λ array e. readable array (inl (sym e))) v)
        λ _ t u. receive_all-IsWf items n t (λ array m. readable array (inr m)) u

abbrev pub text_demand : Option (List NtMessage) → ℕ
text_demand none = 0
text_demand (some msgs) = 3 * length msgs

-- The room that a frame may need.
abbrev pub demand : {V : Type 0} → Wire V → ClientMsg → ℕ
demand w cmsg = elim cmsg.msg [
  | text json ↦ text_demand (w.from_json json)
  | binary bytes ↦ 0
  | _ ↦ 0
]

abbrev pub total_demand : {V : Type 0} → Wire V → List (ℕ × ClientMsg) → ℕ
total_demand w [] = 0
total_demand w ((now, cmsg) ∷ cmsgs) = demand w cmsg + total_demand w cmsgs

module _ {R V : Type 0} (p : Msgpack R V) (w : Wire V) where
  pub parse_message-IsWf :
      (now client_idx : ℕ) (m : Message) (n : ℕ) (s : InnerServer V)
      → IsReceivable p (record { client_idx = client_idx; msg = m })
      → n + demand w (record { client_idx = client_idx; msg = m }) < 2 ^ 32
      → IsWfTo n s
      → Calm
          (n + demand w (record { client_idx = client_idx; msg = m }))
          (parse_in p w now (record { client_idx = client_idx; msg = m }) s)
  unfolding parse_in
  parse_message-IsWf now c (text json) n s receivable room v =
      elim (Option-cases (w.from_json json)) [
        | inl e ↦ rw (e, parse_in) (Holds-pure _ _ (v.0, omega arith))
        | inr (msgs, e) ↦
            let d : text_demand (w.from_json json) ≡ 3 * length msgs = ap text_demand e in
            Holds-weaken (λ _ t. IsWfTo (n + 3 * length msgs) t) (λ _. ⊥) _
              (λ _ t u. (u.0, omega arith)) (λ t h. h)
              (rw (e, parse_in) (dispatch_all-IsWf w c now msgs n s (omega arith) v))
      ]
  parse_message-IsWf now c (binary bytes) n s receivable room v =
      Holds-weaken (λ _ t. IsWfTo n t) (λ _. ⊥) _ (λ _ t u. (u.0, omega arith)) (λ t h. h)
        (receive_all-IsWf p c (p.read_all bytes) n s (receivable bytes refl) v)
  parse_message-IsWf now c ping n s receivable room v = Holds-pure _ _ (v.0, omega arith)
  parse_message-IsWf now c pong n s receivable room v = Holds-pure _ _ (v.0, omega arith)
  parse_message-IsWf now c close_frame n s receivable room v = Holds-pure _ _ (v.0, omega arith)

  -- From a well-formed server the task that parses the frames of the clients leads to a well-formed
  -- server and does not panic, for any frames in any order, if the values of the binary frames
  -- can be read and there is room for three topics for each message of the text frames.
  pub parse_all-IsWf :
      (cmsgs : List (ℕ × ClientMsg)) (n : ℕ) (s : InnerServer V)
      → ((now : ℕ) (cmsg : ClientMsg) → In (now, cmsg) cmsgs → IsReceivable p cmsg)
      → n + total_demand w cmsgs < 2 ^ 32
      → IsWfTo n s
      → Calm (n + total_demand w cmsgs) (parse_all p w cmsgs s)
  unfolding parse_all
  parse_all-IsWf [] n s receivable room v = Holds-pure _ _ (v.0, omega arith)
  parse_all-IsWf ((now, cmsg) ∷ cmsgs) n s receivable room v =
      Holds-bind (λ _ t. IsWfTo (n + demand w cmsg) t) _ _ s
        (parse_message-IsWf now cmsg.client_idx cmsg.msg n s (receivable now cmsg (inl refl))
          (omega arith) v)
        λ _ t u.
          Holds-weaken (λ _ t. IsWfTo (n + demand w cmsg + total_demand w cmsgs) t) (λ _. ⊥) _
            (λ _ t u. (u.0, omega arith)) (λ t h. h)
            (parse_all-IsWf cmsgs (n + demand w cmsg) t (λ at c m. receivable at c (inr m))
              (omega arith) u)
