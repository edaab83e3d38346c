-- ===== src/Server/Clients/Start.antt =====
-- The metatopics that `try_new` of server/inner.rs enters stand at the constant indices.
use frclib_nettables.Base.{◌≡◌, refl, false, some}
use frclib_nettables.Base.Map.{nat_key, text_key, lookup, insert, remove}
use frclib_nettables.Base.Net.{SocketAddr}
use frclib_nettables.Base.Text.{Text-discrete, codes, contains}
use frclib_nettables.Server.Clients.{
  try_new, client_metatopic, server_sub_metadata, server_pub_metatopic, server_client_idx,
}
use frclib_nettables.Server.State.{◌>>=◌}
use frclib_nettables.Server.Topics.{add_topic, add_topic_fuel, register}
use frclib_nettables.Server.Util.{next_topic_idx, next_client_idx}
use frclib_nettables.Spec.Error.{ok}
use frclib_nettables.Spec.Topic.{new_meta, has_implicit_publisher}
use frclib_nettables.Spec.Wire.{Wire}

-- Starting a server succeeds, and its metatopics have the indices that the rest of the code takes
-- for them.
try_new-metatopics :
    {V : Type 0} (w : Wire V) (server_addr : SocketAddr)
    → let (r, s) = try_new w server_addr in
      (r ≡ ok tt)
      × (lookup (codes "$clients") s.topic_map ≡ some client_metatopic)
      × (lookup (codes "$serversub") s.topic_map ≡ some server_sub_metadata)
      × (lookup (codes "$serverpub") s.topic_map ≡ some server_pub_metatopic)
      × (lookup server_client_idx s.kill_switches ≡ some false)
unfolding try_new add_topic add_topic_fuel register next_topic_idx next_client_idx new_meta lookup
    insert remove contains has_implicit_publisher ◌>>=◌ Text-discrete
try_new-metatopics w server_addr = (refl, refl, refl, refl, refl)
