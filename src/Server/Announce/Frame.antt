-- ===== src/Server/Announce/Frame.antt =====
-- The announcements of server/inner.rs never panic and change nothing but the clients.
use frclib_nettables.Base.{ℕ, refl, Option, none, some, List, [], ◌∷◌, arith}
use frclib_nettables.Base.Map.{nat_key}
use frclib_nettables.Server.Announce.{
  announce_topic, respond, notify, announce_to, announce_once, announcement,
}
use frclib_nettables.Server.Connected.{ConnectedClient}
use frclib_nettables.Server.Connected.Quiet.{send_nt_messages-quiet}
use frclib_nettables.Server.State.{InnerServer}
use frclib_nettables.Server.State.Frame.{Frame, Frame-trans}
use frclib_nettables.Server.State.Holds.{
  Keeps, IsQuiet, Holds-bind, Holds-ok_or, Holds-with_client, Holds-pure, Holds-fail, Holds-gets,
}
use frclib_nettables.Spec.Messages.{Announce, NtMessage, announce}
use frclib_nettables.Spec.Wire.{Wire}

module _ {V : Type 0} (w : Wire V) where
  announce_once-IsQuiet :
      (i : ℕ) (msg : Announce) (c : ConnectedClient) → IsQuiet (announce_once w i msg c)
  unfolding announce_once
  announce_once-IsQuiet i msg c h = ground (arith, send_nt_messages-quiet w (announce msg ∷ []) c)

  respond-Frame :
      (i : ℕ) (msg : Announce) (response : Option (ℕ × ℕ)) (s : InnerServer V)
      → Keeps (Frame s) (respond w i msg response s)
  unfolding respond
  respond-Frame i msg none s = Holds-pure _ _ refl
  respond-Frame i msg (some (pubuid, c)) s =
      Holds-with_client c _ _ s (λ _. Holds-fail _ _ refl) (announce_once-IsQuiet i _) (λ _. refl)
        (λ _. refl)

  module _ (s : InnerServer V) where
    notify-Frame :
        (i : ℕ) (msgs : List NtMessage) (idxs : List ℕ) (t : InnerServer V)
        → Frame s t
        → Keeps (Frame s) (notify w i msgs idxs t)
    unfolding notify announce_to
    notify-Frame i msgs [] t h = Holds-pure _ _ h
    notify-Frame i msgs (c ∷ rest) t h =
        Holds-bind (λ _ u. Frame s u) _ _ t
          (Holds-with_client c _ _ t (λ _. Holds-pure _ _ h) (λ c'. send_nt_messages-quiet w msgs _)
            (λ cs. Frame-trans s t _ h refl) (λ cs. Frame-trans s t _ h refl))
          (λ _ u k. notify-Frame i msgs rest u k)

  -- `announce_topic` changes nothing but the clients, whether it succeeds or fails, and never
  -- panics.
  pub announce_topic-Frame :
      (i : ℕ) (response : Option (ℕ × ℕ)) (s : InnerServer V)
      → Keeps (Frame s) (announce_topic w i response s)
  unfolding announce_topic
  announce_topic-Frame i response s = Holds-gets _ _ s (
      Holds-ok_or _ _ _ s (λ _. refl)
        (λ topic e.
          Holds-bind (λ _ t. Frame s t) _ _ s
            (respond-Frame i (announcement topic.name i topic) response s)
            (λ _ t h. Holds-gets _ _ t (notify-Frame s i _ _ t h))))
