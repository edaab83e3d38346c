-- ===== src/Spec/MetaTopic.antt =====
-- spec/metatopic.rs: the values of the metatopics, lists of entries of one of seven kinds.
pub mod Laws
use frclib_nettables.Base.{
  ℕ, Bool, true, false, not, ◌&&◌, Option, List, [], ◌∷◌, ◌++◌, any, retain, ◌==◌, if◌then◌else◌,
}
use frclib_nettables.Base.Text.{Text, text_eq}
use frclib_nettables.Spec.Subscription.{SubscriptionOptions}

pub record PublisherMte : Type 0 where
  pub client : Text
  pub pubuid : ℕ

pub record ClientPublisherMte : Type 0 where
  pub topic : Text
  pub uid : ℕ

pub record SubscriptionMte : Type 0 where
  pub client : Text
  pub subuid : ℕ
  pub options : SubscriptionOptions

pub record ClientSubscriptionMte : Type 0 where
  pub uid : ℕ
  pub topics : List Text
  pub options : SubscriptionOptions

pub record ClientMte : Type 0 where
  pub id : Text
  pub conn : Text

pub data MetaTopicValue : Type 0 where
  publisher : List PublisherMte → MetaTopicValue
  client_publisher : List ClientPublisherMte → MetaTopicValue
  server_publisher : List ClientPublisherMte → MetaTopicValue
  subscription : List SubscriptionMte → MetaTopicValue
  client_subscription : List ClientSubscriptionMte → MetaTopicValue
  server_subscription : List ClientSubscriptionMte → MetaTopicValue
  client : List ClientMte → MetaTopicValue

-- `PartialEq` of each kind of entry: derived, but for the two kinds that leave the options out.
abbrev pub publisher_eq : PublisherMte → PublisherMte → Bool
publisher_eq a b = text_eq a.client b.client && a.pubuid == b.pubuid

abbrev pub client_publisher_eq : ClientPublisherMte → ClientPublisherMte → Bool
client_publisher_eq a b = text_eq a.topic b.topic && a.uid == b.uid

abbrev pub subscription_eq : SubscriptionMte → SubscriptionMte → Bool
subscription_eq a b = text_eq a.client b.client && a.subuid == b.subuid

abbrev pub texts_eq : List Text → List Text → Bool
texts_eq [] [] = true
texts_eq (s ∷ ss) (t ∷ ts) = text_eq s t && texts_eq ss ts
texts_eq _ _ = false

abbrev pub client_subscription_eq : ClientSubscriptionMte → ClientSubscriptionMte → Bool
client_subscription_eq a b = a.uid == b.uid && texts_eq a.topics b.topics

abbrev pub client_eq : ClientMte → ClientMte → Bool
client_eq a b = text_eq a.id b.id && text_eq a.conn b.conn

-- `inner.retain(|x| !other_inner.contains(x))`.
unfoldable pub drop_all : {A : Type 0} → (A → A → Bool) → List A → List A → List A
drop_all eq inner other_inner = retain (λ x. not (any (λ y. eq y x) other_inner)) inner

unfoldable pub merge : MetaTopicValue → MetaTopicValue → MetaTopicValue
merge (publisher xs) (publisher ys) = publisher (xs ++ ys)
merge (client_publisher xs) (client_publisher ys) = client_publisher (xs ++ ys)
merge (server_publisher xs) (server_publisher ys) = server_publisher (xs ++ ys)
merge (subscription xs) (subscription ys) = subscription (xs ++ ys)
merge (client_subscription xs) (client_subscription ys) = client_subscription (xs ++ ys)
merge (server_subscription xs) (server_subscription ys) = server_subscription (xs ++ ys)
merge (client xs) (client ys) = client (xs ++ ys)
merge this other = this

unfoldable pub reduce : MetaTopicValue → MetaTopicValue → MetaTopicValue
unfolding drop_all
reduce (publisher xs) (publisher ys) = publisher (drop_all publisher_eq xs ys)
reduce (client_publisher xs) (client_publisher ys) =
    client_publisher (drop_all client_publisher_eq xs ys)
reduce (server_publisher xs) (server_publisher ys) =
    server_publisher (drop_all client_publisher_eq xs ys)
reduce (subscription xs) (subscription ys) = subscription (drop_all subscription_eq xs ys)
reduce (client_subscription xs) (client_subscription ys) =
    client_subscription (drop_all client_subscription_eq xs ys)
reduce (server_subscription xs) (server_subscription ys) =
    server_subscription (drop_all client_subscription_eq xs ys)
reduce (client xs) (client ys) = client (drop_all client_eq xs ys)
reduce this other = this
