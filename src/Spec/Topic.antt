-- ===== src/Spec/Topic.antt =====
-- spec/topic.rs.
use frclib_nettables.Base.{ℕ, Bool, true, false, Option, none, some, if◌then◌else◌}
use frclib_nettables.Base.Text.{Text, codes}

pub record PublishProperties : Type 0 where
  pub persistent : Option Bool
  pub retained : Option Bool

-- `PublishProperties::default()`.
abbrev pub default_properties : PublishProperties
default_properties = record { persistent = none; retained = none }

pub record PublishedTopic : Type 0 where
  pub name : Text
  pub pubuid : ℕ
  pub type : Text
  pub properties : Option PublishProperties

pub record Topic : Type 0 where
  pub name : Text
  pub type : Text
  pub properties : Option PublishProperties

unfoldable pub new_meta : Text → Topic
new_meta name = record { name = name; type = codes "raw"; properties = none }

-- `opt == Some(true)`.
abbrev pub is_some_true : Option Bool → Bool
is_some_true (some true) = true
is_some_true (some false) = false
is_some_true none = false

unfoldable pub has_implicit_publisher : Topic → Bool
has_implicit_publisher topic = elim topic.properties [
  | some props ↦
      if is_some_true props.retained
      then true
      else if is_some_true props.persistent
      then true
      else false
  | none ↦ false
]
