-- ===== src/Client/FanOut/Referrers.antt =====
-- Each referrer of a fan-out is served by itself: what it gets does not depend on the others.
use datamancer.Base.{
  ◌≡◌, refl, Bool, true, false, Option, none, some, List, [], ◌∷◌, ◌==◌, nat_eq, lookup, remove,
  lookup-remove, arith, if◌then◌else◌, Absent, IsUnique, remove-IsUnique,
}
use datamancer.Core.Event.{MarketEvent}
use datamancer.Channel.{Channel}
use datamancer.Client.FanOut.{Referrer, FanOut, serve, visit, remove_all, fanout, SubscriberId}

abbrev pub served : (ch : Channel) → MarketEvent → Option (Referrer ch) → Option (Referrer ch)
served ch ev none = none
served ch ev (some r) = if (serve ch r ev).1 then none else some (serve ch r ev).0

abbrev contains : SubscriberId → List SubscriberId → Bool
contains id [] = false
contains id (j ∷ ids) = if j == id then true else contains id ids

module _ (ch : Channel) where
  lookup-remove_all :
      (id : SubscriberId) (ids : List SubscriberId) (subs : List (SubscriberId × Referrer ch))
      → lookup id (remove_all ch ids subs) ≡ (if contains id ids then none else lookup id subs)
  unfolding remove_all
  lookup-remove_all id [] subs = refl
  lookup-remove_all id (j ∷ ids) subs =
      ground (arith, lookup-remove_all id ids (remove j subs), lookup-remove j id subs)

  dead-Absent :
      (id : SubscriberId) (subs : List (SubscriberId × Referrer ch)) (ev : MarketEvent)
      → Absent id subs
      → contains id (visit ch subs ev).1 ≡ false
  unfolding visit
  dead-Absent id [] ev a = refl
  dead-Absent id ((j, r) ∷ subs) ev a = ground (arith, dead-Absent id subs ev a.1)

  lookup-visit :
      (id : SubscriberId) (subs : List (SubscriberId × Referrer ch)) (ev : MarketEvent)
      → IsUnique subs
      → (if contains id (visit ch subs ev).1 then none else lookup id (visit ch subs ev).0)
        ≡ served ch ev (lookup id subs)
  unfolding visit lookup
  lookup-visit id [] ev u = refl
  lookup-visit id ((j, r) ∷ subs) ev u =
      ground (arith, lookup-visit id subs ev u.1, dead-Absent j subs ev u.0)

  -- Among referrers with distinct ids, what `fanout` leaves of one is what serving that one alone
  -- leaves: its channel and the gap it is owed, or nothing if its channel has closed.
  pub lookup-fanout :
      (f : FanOut ch) (ev : MarketEvent) (id : SubscriberId)
      → IsUnique f.subscribers
      → lookup id (fanout ch f ev).subscribers ≡ served ch ev (lookup id f.subscribers)
  unfolding fanout
  lookup-fanout f ev id u =
      let (subs, dead) = visit ch f.subscribers ev in
      rw (lookup-remove_all id dead subs) (lookup-visit id f.subscribers ev u)

  visit-Absent :
      (id : SubscriberId) (subs : List (SubscriberId × Referrer ch)) (ev : MarketEvent)
      → Absent id subs
      → Absent id (visit ch subs ev).0
  unfolding visit
  visit-Absent id [] ev a = tt
  visit-Absent id ((j, r) ∷ subs) ev a = (a.0, visit-Absent id subs ev a.1)

  visit-IsUnique :
      (subs : List (SubscriberId × Referrer ch)) (ev : MarketEvent)
      → IsUnique subs
      → IsUnique (visit ch subs ev).0
  unfolding visit
  visit-IsUnique [] ev u = tt
  visit-IsUnique ((j, r) ∷ subs) ev u = (visit-Absent j subs ev u.0, visit-IsUnique subs ev u.1)

  remove_all-IsUnique :
      (ids : List SubscriberId) (subs : List (SubscriberId × Referrer ch))
      → IsUnique subs
      → IsUnique (remove_all ch ids subs)
  unfolding remove_all
  remove_all-IsUnique [] subs u = u
  remove_all-IsUnique (id ∷ ids) subs u =
      remove_all-IsUnique ids (remove id subs) (remove-IsUnique id subs u)

  pub fanout-IsUnique :
      (f : FanOut ch) (ev : MarketEvent)
      → IsUnique f.subscribers
      → IsUnique (fanout ch f ev).subscribers
  unfolding fanout
  fanout-IsUnique f ev u =
      remove_all-IsUnique (visit ch f.subscribers ev).1 (visit ch f.subscribers ev).0
        (visit-IsUnique f.subscribers ev u)
