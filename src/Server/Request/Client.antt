-- ===== src/Server/Request/Client.antt =====
-- The request of `setup_socket` in client/inner.rs, as server/runner.rs takes it.
use frclib_nettables.Base.{
  ℕ, zero, suc, ◌≡◌, refl, ap, true, false, none, some, [], ◌∷◌, ◌++◌, length, arith,
}
use frclib_nettables.Base.Text.{Text, codes, contains, starts_with}
use frclib_nettables.Server.Request.{
  Request, switching_protocols, strip_prefix, trim_rounds, trim_start_matches, protocol_answer,
  request,
}

-- `ws://{server_addr}/nt/{identity}` with the header of the protocol; tungstenite adds the others.
unfoldable pub client_request : Text → Text → Request
client_request identity key = record {
  is_get = true;
  is_http_11 = true;
  upgrade = some (codes "websocket");
  websocket_key = some key;
  websocket_protocol = some (codes "networktables.first.wpi.edu");
  path = codes "/nt/" ++ identity;
}

strip_prefix-none : (s p : Text) → starts_with s p ≡ false → strip_prefix s p ≡ none
unfolding strip_prefix starts_with
strip_prefix-none s [] h = absurd (cc)
strip_prefix-none [] (p ∷ ps) h = refl
strip_prefix-none (c ∷ cs) (p ∷ ps) h = ground (arith, strip_prefix-none cs ps)

trim_rounds-plain : (f : ℕ) (s p : Text) → starts_with s p ≡ false → trim_rounds f s p ≡ s
unfolding trim_rounds
trim_rounds-plain zero s p h = refl
trim_rounds-plain (suc f) s p h = rw (strip_prefix-none s p h, trim_rounds) refl

-- The server accepts the request of a client of this crate, and takes its identity for its name,
-- unless the identity itself begins with `/nt/`.
request-client :
    (identity key : Text)
    → starts_with identity (codes "/nt/") ≡ false
    → request (client_request identity key) ≡ switching_protocols false identity
unfolding request protocol_answer client_request contains starts_with trim_start_matches trim_rounds
    strip_prefix
request-client identity key h =
    ap (switching_protocols false)
      (trim_rounds-plain (suc (suc (suc (length identity)))) identity (codes "/nt/") h)
