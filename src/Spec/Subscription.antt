-- ===== src/Spec/Subscription.antt =====
-- spec/subscription.rs. A `HashSet` of topic names is the list of its elements in some order, and
-- `periodic`, a number of seconds as `f64`, is a whole number of microseconds. A client's `Weak`
-- pointer to the subscription is `some` while the user holds the stream, and `none` after.
pub mod Matching
use frclib_nettables.Base.{
  ℕ, ◌≡◌, refl, ◌⊎◌, ◌↔◌, inl, inr, Bool, true, false, Option, none, some, List, ◌++◌, arith, any,
  In, unwrap_or, is_some, any-of_In, In-of_any, if◌then◌else◌,
}
use frclib_nettables.Base.Int.{ℤ}
use frclib_nettables.Base.Text.{Text, text_eq, text_eq_iff, starts_with, starts_with_iff}
use frclib_nettables.Spec.Topic.{Topic}

pub record SubscriptionOptions : Type 0 where
  pub periodic : Option ℕ
  pub all : Option Bool
  pub topics_only : Option Bool
  pub prefix : Option Bool

-- `SubscriptionOptions::default()`.
abbrev pub default_options : SubscriptionOptions
default_options = record { periodic = none; all = none; topics_only = none; prefix = none }

pub record Subscription : Type 0 where
  pub subuid : ℤ
  pub topics : List Text
  pub options : Option SubscriptionOptions

abbrev pub get_options : Subscription → SubscriptionOptions
get_options sub = unwrap_or sub.options default_options

unfoldable pub cares_about : Subscription → Text → Bool
cares_about sub topic =
    if unwrap_or (get_options sub).prefix false
    then any (λ topic_pat. starts_with topic topic_pat) sub.topics
    else any (λ topic_name. text_eq topic_name topic) sub.topics

-- `data` of the source is spelled `subscription`; the other field is a channel.
pub record InternalSub : Type 0 where
  pub subscription : Option Subscription

unfoldable pub is_valid : InternalSub → Bool
is_valid sub = is_some sub.subscription

-- `data.options.as_ref().and_then(|options| options.prefix).unwrap_or(false)`.
abbrev pub prefix_option : Option SubscriptionOptions → Bool
prefix_option none = false
prefix_option (some options) = unwrap_or options.prefix false

unfoldable pub matches_topic : InternalSub → Topic → Bool
matches_topic sub topic = elim sub.subscription [
  | some data_ref ↦
      if prefix_option data_ref.options
      then any (λ topic_pat. starts_with topic.name topic_pat) data_ref.topics
      else any (λ topic_name. text_eq topic_name topic.name) data_ref.topics
  | none ↦ false
]
