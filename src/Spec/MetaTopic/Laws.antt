-- ===== src/Spec/MetaTopic/Laws.antt =====
-- How `merge` and `reduce` of spec/metatopic.rs undo each other.
use frclib_nettables.Base.{
  ◌≡◌, refl, ap, Bool, true, false, List, [], ◌∷◌, ◌++◌, any, any-of_In, In, arith, inl, inr,
}
use frclib_nettables.Base.Text.{Text, text_eq, text_eq_iff}
use frclib_nettables.Spec.MetaTopic.{
  PublisherMte, ClientPublisherMte, SubscriptionMte, ClientSubscriptionMte, ClientMte,
  MetaTopicValue, publisher, client_publisher, server_publisher, subscription, client_subscription,
  server_subscription, client, publisher_eq, client_publisher_eq, subscription_eq, texts_eq,
  client_subscription_eq, client_eq, drop_all, merge, reduce,
}

module _ {A : Type 0} (eq : A → A → Bool) where
  -- No element of one list is among those of the other.
  abbrev pub Apart : List A → List A → Type 0
  Apart xs ys = any (λ x. any (λ y. eq y x) ys) xs ≡ false

  drop_all-own :
      (ys zs : List A) → ((z : A) → In z zs → any (λ y. eq y z) ys ≡ true) → drop_all eq zs ys ≡ []
  unfolding drop_all
  drop_all-own ys [] found = refl
  drop_all-own ys (z ∷ zs) found =
      ground (arith, found z (inl refl), drop_all-own ys zs (λ x m. found x (inr m)))

  drop_all-append :
      (xs ys zs : List A) → Apart xs ys → drop_all eq zs ys ≡ [] → drop_all eq (xs ++ zs) ys ≡ xs
  unfolding drop_all
  drop_all-append [] ys zs apart own = own
  drop_all-append (x ∷ xs) ys zs apart own = ground (arith, drop_all-append xs ys zs)

  drop_all-merged :
      ((a : A) → eq a a ≡ true) → (xs ys : List A) → Apart xs ys → drop_all eq (xs ++ ys) ys ≡ xs
  drop_all-merged reflexive xs ys apart =
      drop_all-append xs ys ys apart
        (drop_all-own ys ys λ z m. any-of_In (λ y. eq y z) ys z m (reflexive z))

text_eq_refl : (s : Text) → text_eq s s ≡ true
text_eq_refl s = (text_eq_iff s s).1 refl

texts_eq_refl : (l : List Text) → texts_eq l l ≡ true
texts_eq_refl [] = refl
texts_eq_refl (s ∷ l) = ground (arith, text_eq_refl s, texts_eq_refl l)

publisher_eq_refl : (a : PublisherMte) → publisher_eq a a ≡ true
publisher_eq_refl a = ground (arith, text_eq_refl a.client)

client_publisher_eq_refl : (a : ClientPublisherMte) → client_publisher_eq a a ≡ true
client_publisher_eq_refl a = ground (arith, text_eq_refl a.topic)

subscription_eq_refl : (a : SubscriptionMte) → subscription_eq a a ≡ true
subscription_eq_refl a = ground (arith, text_eq_refl a.client)

client_subscription_eq_refl : (a : ClientSubscriptionMte) → client_subscription_eq a a ≡ true
client_subscription_eq_refl a = ground (arith, texts_eq_refl a.topics)

client_eq_refl : (a : ClientMte) → client_eq a a ≡ true
client_eq_refl a = ground (arith, text_eq_refl a.id, text_eq_refl a.conn)

-- Two values of one kind with no entry in common; values of two kinds have none.
abbrev pub IsApart : MetaTopicValue → MetaTopicValue → Type 0
IsApart (publisher xs) (publisher ys) = Apart publisher_eq xs ys
IsApart (client_publisher xs) (client_publisher ys) = Apart client_publisher_eq xs ys
IsApart (server_publisher xs) (server_publisher ys) = Apart client_publisher_eq xs ys
IsApart (subscription xs) (subscription ys) = Apart subscription_eq xs ys
IsApart (client_subscription xs) (client_subscription ys) = Apart client_subscription_eq xs ys
IsApart (server_subscription xs) (server_subscription ys) = Apart client_subscription_eq xs ys
IsApart (client xs) (client ys) = Apart client_eq xs ys
IsApart this other = Unit

-- What was merged in and has no entry in common with the value is taken out again by `reduce`,
-- and where the kinds differ neither operation changes anything.
pub reduce-merge : (a b : MetaTopicValue) → IsApart a b → reduce (merge a b) b ≡ a
unfolding reduce merge
reduce-merge (publisher xs) (publisher ys) h =
    ap publisher (drop_all-merged publisher_eq publisher_eq_refl xs ys h)
reduce-merge (client_publisher xs) (client_publisher ys) h =
    ap client_publisher (drop_all-merged client_publisher_eq client_publisher_eq_refl xs ys h)
reduce-merge (server_publisher xs) (server_publisher ys) h =
    ap server_publisher (drop_all-merged client_publisher_eq client_publisher_eq_refl xs ys h)
reduce-merge (subscription xs) (subscription ys) h =
    ap subscription (drop_all-merged subscription_eq subscription_eq_refl xs ys h)
reduce-merge (client_subscription xs) (client_subscription ys) h =
    ap client_subscription
      (drop_all-merged client_subscription_eq client_subscription_eq_refl xs ys h)
reduce-merge (server_subscription xs) (server_subscription ys) h =
    ap server_subscription
      (drop_all-merged client_subscription_eq client_subscription_eq_refl xs ys h)
reduce-merge (client xs) (client ys) h =
    ap client (drop_all-merged client_eq client_eq_refl xs ys h)
reduce-merge a b h = refl
