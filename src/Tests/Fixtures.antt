-- ===== src/Tests/Fixtures.antt =====
-- An encoder of numbers as values, and small servers.
use frclib_nettables.Base.{ℕ, false, none, some, [], ◌∷◌}
use frclib_nettables.Base.Int.{pos, negsuc}
use frclib_nettables.Base.Net.{SocketAddr, v4}
use frclib_nettables.Base.Text.{Text, codes}
use frclib_nettables.Client.Sending.{ClientWire}
use frclib_nettables.Client.State.{InnerClient, HeldSub}
use frclib_nettables.Server.Connected.{ConnectedClient, open_channel}
use frclib_nettables.Server.Runner.{Msgpack}
use frclib_nettables.Server.State.{InnerServer}
use frclib_nettables.Server.Util.{ClientIdentity, new_all}
use frclib_nettables.Spec.Extensions.{int}
use frclib_nettables.Spec.Messages.{publish, PublishTopic}
use frclib_nettables.Spec.Subscription.{Subscription}
use frclib_nettables.Spec.Topic.{Topic, PublishedTopic}
use frclib_nettables.Spec.Wire.{Wire}

-- Publishing the topic "b" under the id 9.
abbrev pub publish_b : PublishTopic
publish_b = record { name = codes "b"; pubuid = 9; type = codes "int"; properties = none }

-- Every text is a frame with one message, and every value is one byte.
abbrev pub wire : Wire ℕ
wire = record {
  to_json = λ msgs. some [];
  from_json = λ json. some (publish publish_b ∷ []);
  get_type = λ v. int;
  write_array_len = λ n. some (n ∷ []);
  write_i32 = λ i. some (elim i [ pos n ↦ n ∷ [] | negsuc n ↦ n ∷ [] ]);
  write_uint = λ n. some (n ∷ []);
  write_u8 = λ n. some (n ∷ []);
  write_value = λ v. some (v ∷ []);
  publisher_to_vec = λ e. some [];
  client_publisher_to_vec = λ e. some [];
  subscription_to_vec = λ e. some [];
  client_subscription_to_vec = λ e. some [];
  client_to_vec = λ e. some [];
}

-- The bytes of a frame are one array.
abbrev pub msgpack : Msgpack ℕ ℕ
msgpack = record { read_all = λ bytes. some bytes ∷ []; as_u64 = some; try_value = some }

abbrev pub addr : SocketAddr
addr = v4 10 0 0 2 5810

abbrev pub robot : ClientIdentity
robot = record { addr = addr; name = codes "robot" }

abbrev pub topic_a : Topic
topic_a = record { name = codes "a"; type = codes "int"; properties = none }

abbrev pub to_a : Subscription
to_a = record { subuid = pos 7; topics = codes "a" ∷ []; options = none }

-- Publishes the topic 0 under the id 5, and holds the subscription 0 under the id 7.
abbrev pub client_one : ConnectedClient
client_one = record {
  identity = robot;
  kill_bool = 1;
  pubuid_to_topicidx = record { to_right = (5, 0) ∷ []; to_left = (0, 5) ∷ [] };
  subuid_to_subidx = record { to_right = (7, 0) ∷ []; to_left = (0, 7) ∷ [] };
  subs = [];
  sub_ouput = some open_channel;
  announced_topics = 0 ∷ [];
}

abbrev pub meta_topic : Text → Topic
meta_topic name = record { name = name; type = codes "raw"; properties = none }

-- One topic with its two metatopics, one client and one subscription to the topic.
abbrev pub sample : InnerServer ℕ
sample = record {
  server_addr = addr;
  topics = (0, topic_a) ∷ (1, meta_topic (codes "$pub$a")) ∷ (2, meta_topic (codes "$sub$a")) ∷ [];
  topic_map = (codes "a", 0) ∷ (codes "$pub$a", 1) ∷ (codes "$sub$a", 2) ∷ [];
  pub_count = (0, 1) ∷ (1, 1) ∷ (2, 1) ∷ [];
  topic_value_map = (0, record { timestamp = 4; value = 40 }) ∷ [];
  metatopic_value_map = [];
  client_map = (robot, 1) ∷ [];
  clients = (1, client_one) ∷ [];
  client_metatopic_map = [];
  subscriptions = (0, (to_a, 1)) ∷ [];
  topic_sub_map = (0, 0 ∷ []) ∷ (1, []) ∷ (2, []) ∷ [];
  sub_send_timestamps = (0, 1000) ∷ [];
  sub_values = (0, new_all) ∷ [];
  counters = record { topic_idx = 3; sub_idx = 1; client_idx = 2 };
  kill_switches = (1, false) ∷ [];
  callbacks = [];
}

-- A client's encoders.
abbrev pub client_wire : ClientWire ℕ
client_wire = record {
  wire = wire;
  write_u32 = λ n. some (n ∷ []);
  integer = λ n. n;
  type_of = λ t. int;
}

-- A value of the topic 0 waits for nobody yet, and the next topic gets the id 9.
abbrev pub waiting : HeldSub ℕ
waiting = record {
  sub = record { subscription = some to_a };
  queue = [];
  capacity = 2;
  closed = false;
}

abbrev pub idle : InnerClient ℕ
idle = record {
  announced_topics = (pos 0, topic_a) ∷ [];
  subscriptions = (pos 7, waiting) ∷ [];
  client_published_topics = [];
  socket = record { sent = []; ended = false; left = none };
  topic_counter = 8;
  sub_counter = 3;
  server_time_offset = 0;
  start_instant = 1000;
  start_time = 0;
}

abbrev pub published_b : PublishedTopic
published_b = record { name = codes "b"; pubuid = 9; type = codes "int"; properties = none }
