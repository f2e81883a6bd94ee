-- ===== src/Client/FanOut/Lifetime.antt =====
-- When an authoritative session has lost its last referrer.
use datamancer.Base.{
  ◌≡◌, refl, sym, ◌↔◌, ◌∙◌, ap, Option, none, some, ◌==◌, nat_eq, if◌then◌else◌, lookup,
  lookup-insert, lookup-remove, IsUnique, insert-IsUnique, remove-IsUnique, beq_refl, Bool, true,
  false, ◌||◌, List, [], ◌∷◌, arith, or_assoc,
}
use datamancer.Core.Event.{
  MarketEvent, trade, quote, bar, control, ControlKind, subscription_changed,
}
use datamancer.Channel.{Channel}
use datamancer.Client.FanOut.{
  Referrer, FanOut, SubscriberId, replay, new, add, drop_subscriber, fanout, should_teardown,
  is_empty,
}
use datamancer.Client.FanOut.Referrers.{served, lookup-fanout, fanout-IsUnique}

-- What its controller does to a fan-out.
pub data Act (ch : Channel) : Type 0 where
  adds : SubscriberId → ch.Tx → Act ch
  drops : SubscriberId → Act ch
  delivers : MarketEvent → Act ch

module _ (ch : Channel) where
  unfoldable pub act : FanOut ch → Act ch → FanOut ch
  unfolding add drop_subscriber fanout
  act f (adds id tx) = add ch f id tx
  act f (drops id) = drop_subscriber ch f id
  act f (delivers ev) = fanout ch f ev

  unfoldable pub act_all : FanOut ch → List (Act ch) → FanOut ch
  unfolding act
  act_all f [] = f
  act_all f (a ∷ acts) = act_all (act f a) acts

  abbrev is_add : Act ch → Bool
  is_add (adds id tx) = true
  is_add _ = false

  abbrev pub any_add : List (Act ch) → Bool
  any_add [] = false
  any_add (a ∷ acts) = is_add a || any_add acts

  act-had : (f : FanOut ch) (a : Act ch) → (act f a).had_subscriber ≡ f.had_subscriber || is_add a
  unfolding act add drop_subscriber fanout
  act-had f (adds id tx) = ground arith
  act-had f (drops id) = ground arith
  act-had f (delivers ev) = ground arith

  act_all-had :
      (f : FanOut ch) (acts : List (Act ch))
      → (act_all f acts).had_subscriber ≡ f.had_subscriber || any_add acts
  unfolding act_all
  act_all-had f [] = ground arith
  act_all-had f (a ∷ acts) =
      act_all-had (act f a) acts
      ∙ ap (λ b. b || any_add acts) (act-had f a)
      ∙ or_assoc f.had_subscriber (is_add a) (any_add acts)

  abbrev kind_is_subscribed : ControlKind → Bool
  kind_is_subscribed (subscription_changed provider instrument kind active) = active
  kind_is_subscribed _ = false

  abbrev is_subscribed : MarketEvent → Bool
  is_subscribed (control c) = kind_is_subscribed c.kind
  is_subscribed _ = false

  -- The session's last announcement of a subscription after an act.
  abbrev announced : Option MarketEvent → Act ch → Option MarketEvent
  announced last (delivers ev) = if is_subscribed ev then some ev else last
  announced last _ = last

  abbrev greeted : Option MarketEvent → ch.Tx → ch.Tx
  greeted none tx = tx
  greeted (some ev) tx = (ch.try_send tx ev).1

  -- One referrer after an act, said of it alone: it is there from the time it joins, greeted with
  -- the last announcement, until it leaves or its channel is found closed when it is served.
  abbrev follow :
      SubscriberId → Option MarketEvent → Option (Referrer ch) → Act ch → Option (Referrer ch)
  follow id last r (adds j tx) =
      if j == id then some (record { tx = greeted last tx; pending = none }) else r
  follow id last r (drops j) = if j == id then none else r
  follow id last r (delivers ev) = served ch ev r

  abbrev follow_all :
      SubscriberId
      → Option MarketEvent
      → Option (Referrer ch)
      → List (Act ch)
      → Option (Referrer ch)
  follow_all id last r [] = r
  follow_all id last r (a ∷ acts) = follow_all id (announced last a) (follow id last r a) acts

  -- A referrer over a session's life.
  abbrev pub followed : SubscriberId → List (Act ch) → Option (Referrer ch)
  followed id acts = follow_all id none none acts

  greeted-replay : (last : Option MarketEvent) (tx : ch.Tx) → replay ch last tx ≡ greeted last tx
  unfolding replay
  greeted-replay none tx = refl
  greeted-replay (some ev) tx = refl

  act-IsUnique :
      (f : FanOut ch) (a : Act ch) → IsUnique f.subscribers → IsUnique (act f a).subscribers
  unfolding act add drop_subscriber
  act-IsUnique f (adds id tx) u = insert-IsUnique id _ f.subscribers u
  act-IsUnique f (drops id) u = remove-IsUnique id f.subscribers u
  act-IsUnique f (delivers ev) u = fanout-IsUnique ch f ev u

  announced-act :
      (f : FanOut ch) (a : Act ch)
      → (act f a).last_subscription_changed ≡ announced f.last_subscription_changed a
  unfolding act add drop_subscriber fanout
  announced-act f (adds id tx) = refl
  announced-act f (drops id) = refl
  announced-act f (delivers (trade t)) = refl
  announced-act f (delivers (quote q)) = refl
  announced-act f (delivers (bar b)) = refl
  announced-act f (delivers (control c)) = ground arith

  lookup-act :
      (f : FanOut ch) (a : Act ch) (id : SubscriberId)
      → IsUnique f.subscribers
      → lookup id (act f a).subscribers
        ≡ follow id f.last_subscription_changed (lookup id f.subscribers) a
  unfolding act add drop_subscriber
  lookup-act f (adds j tx) id u =
      lookup-insert j id (record { tx = replay ch f.last_subscription_changed tx; pending = none })
        f.subscribers
      ∙ ap
          (λ (t : ch.Tx).
            if j == id then some (record { tx = t; pending = none }) else lookup id f.subscribers)
          (greeted-replay f.last_subscription_changed tx)
  lookup-act f (drops j) id u = lookup-remove j id f.subscribers
  lookup-act f (delivers ev) id u = lookup-fanout ch f ev id u

  lookup-act_all :
      (f : FanOut ch) (acts : List (Act ch)) (id : SubscriberId)
      → IsUnique f.subscribers
      → lookup id (act_all f acts).subscribers
        ≡ follow_all id f.last_subscription_changed (lookup id f.subscribers) acts
  unfolding act_all
  lookup-act_all f [] id u = refl
  lookup-act_all f (a ∷ acts) id u =
      lookup-act_all (act f a) acts id (act-IsUnique f a u)
      ∙ ap (λ l. follow_all id l (lookup id (act f a).subscribers) acts) (announced-act f a)
      ∙ ap (λ r. follow_all id (announced f.last_subscription_changed a) r acts)
          (lookup-act f a id u)

  empty-lookup :
      (subs : List (SubscriberId × Referrer ch))
      → (is_empty subs ≡ true) ↔ ((id : SubscriberId) → lookup id subs ≡ none)
  unfolding lookup
  empty-lookup [] = (λ h id. refl, λ h. refl)
  empty-lookup ((j, r) ∷ subs) = (λ h. ground arith, λ h. first (h j))
    where
      first : lookup j ((j, r) ∷ subs) ≡ none → is_empty ((j, r) ∷ subs) ≡ true
      first e = ground (arith, beq_refl j)

  -- Over its life a session is told to tear down exactly while some referrer has joined before and
  -- none of those that joined is there: each has left, or its channel was found closed. What is said
  -- of each referrer is said of its own joining, leaving and serving alone.
  pub should_teardown_iff :
      (acts : List (Act ch))
      → (should_teardown ch (act_all (new ch) acts) ≡ true)
        ↔ ((any_add acts ≡ true) × ((id : SubscriberId) → followed id acts ≡ none))
  unfolding should_teardown new lookup
  should_teardown_iff acts =
      let f = act_all (new ch) acts in
      let had = act_all-had (new ch) acts in
      let none_left = empty-lookup f.subscribers in
      let alone : (id : SubscriberId) → lookup id f.subscribers ≡ followed id acts =
        λ id. lookup-act_all (new ch) acts id tt in
      (
        λ h.
            let empty : is_empty f.subscribers ≡ true = ground (arith, had) in
            (ground (arith, had), λ id. sym (alone id) ∙ none_left.0 empty id),
        λ (joined, gone).
            let empty = none_left.1 (λ id. alone id ∙ gone id) in ground (arith, had, empty),
      )
