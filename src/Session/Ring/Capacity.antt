-- ===== src/Session/Ring/Capacity.antt =====
-- An event ring keeps its capacity, which is at least what was asked for.
use datamancer.Base.{ℕ, ◌≤◌, ◌≡◌, refl, ◌∙◌, List, [], ◌∷◌, arith}
use datamancer.Core.Event.{MarketEvent}
use datamancer.Session.Ring.{EventRing, new, push, push_all, note_drop}

push-capacity : (r : EventRing) (ev : MarketEvent) → (push r ev).capacity ≡ r.capacity
unfolding push note_drop
push-capacity r ev = ground arith

pub push_all-capacity :
    (r : EventRing) (evs : List MarketEvent) → (push_all r evs).capacity ≡ r.capacity
unfolding push_all
push_all-capacity r [] = refl
push_all-capacity r (ev ∷ evs) = push_all-capacity (push r ev) evs ∙ push-capacity r ev

pub new-capacity : (capacity : ℕ) → capacity ≤ (new capacity).capacity
unfolding new
new-capacity capacity = ground arith
