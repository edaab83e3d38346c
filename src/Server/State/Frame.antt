-- ===== src/Server/State/Frame.antt =====
-- What an operation of server/inner.rs leaves as it was, if it changes nothing but the clients.
use frclib_nettables.Base.{◌≡◌, ◌∙◌, ap}
use frclib_nettables.Server.State.{InnerServer}

module _ {V : Type 0} where
  -- All but the clients is as it was.
  abbrev pub Frame : InnerServer V → InnerServer V → Type 0
  Frame s t = t ≡ record s { clients = t.clients }

  pub Frame-trans : (s t u : InnerServer V) → Frame s t → Frame t u → Frame s u
  Frame-trans s t u p q = q ∙ ap (λ (x : InnerServer V). record x { clients = u.clients }) p
