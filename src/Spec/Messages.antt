-- ===== src/Spec/Messages.antt =====
-- spec/messages.rs: the text messages of the protocol.
use frclib_nettables.Base.{ℕ, Bool, Option, List}
use frclib_nettables.Base.Int.{ℤ}
use frclib_nettables.Base.Net.{SocketAddr}
use frclib_nettables.Base.Text.{Text}
use frclib_nettables.Spec.Subscription.{SubscriptionOptions}
use frclib_nettables.Spec.Topic.{Topic, PublishProperties, PublishedTopic}

pub record PublishTopic : Type 0 where
  pub name : Text
  pub pubuid : ℕ
  pub type : Text
  pub properties : Option PublishProperties

pub record UnpublishTopic : Type 0 where
  pub pubuid : ℕ

pub record Subscribe : Type 0 where
  pub subuid : ℤ
  pub topics : List Text
  pub options : Option SubscriptionOptions

pub record Unsubscribe : Type 0 where
  pub subuid : ℤ

pub record SetProperties : Type 0 where
  pub name : Text
  pub update : PublishProperties

pub record Announce : Type 0 where
  pub name : Text
  pub id : ℤ
  pub type : Text
  pub pubuid : Option ℤ
  pub properties : PublishProperties

pub record UnAnnounce : Type 0 where
  pub name : Text
  pub id : ℕ

pub record Close : Type 0 where
  pub addr : SocketAddr
  pub name : Text

pub record Properties : Type 0 where
  pub name : Text
  pub ack : Option Bool

pub data NtMessage : Type 0 where
  publish : PublishTopic → NtMessage
  unpublish : UnpublishTopic → NtMessage
  subscribe : Subscribe → NtMessage
  unsubscribe : Unsubscribe → NtMessage
  set_properties : SetProperties → NtMessage
  announce : Announce → NtMessage
  un_announce : UnAnnounce → NtMessage
  properties : Properties → NtMessage
  close : Close → NtMessage

-- `Topic::from_publish_topic` of spec/topic.rs.
unfoldable pub from_publish_topic : PublishTopic → Topic
from_publish_topic pub_topic = record {
  name = pub_topic.name;
  type = pub_topic.type;
  properties = pub_topic.properties;
}

-- `PublishedTopic::as_unpublish` of spec/topic.rs.
unfoldable pub as_unpublish : PublishedTopic → NtMessage
as_unpublish topic = unpublish (record { pubuid = topic.pubuid })
