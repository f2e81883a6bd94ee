-- ===== src/Health/Agreement.antt =====
-- What the health view reports of a provider, from the state it was sampled from.
use datamancer.Base.{
  ◌≡◌, ◌≢◌, refl, ◌↔◌, Bool, true, false, not, ◌&&◌, ◌||◌, Option, String, List, [], ◌∷◌, map,
  arith, length,
}
use datamancer.Client.Stats.{StreamConnection}
use datamancer.Client.Stats.Connection.{is_up, is_down}
use datamancer.Provider.Accounting.{
  ProviderAccounting, is_connected, is_disconnected, is_unauthenticated,
}
use datamancer.Provider.Accounting.Connections.{any_of, is_rejected, is_some, connection_state_lem}
use datamancer.Health.Snapshot.{
  AuthHandle, ProviderFacts, ProviderSnapshot, own_handles, phase_of, enabled_of, to_u32,
  provider_snapshot,
}
use datamancer.Health.View.{
  ProviderState, connected_provider, connecting, disconnected_provider, unauthenticated_provider,
  disabled_provider, idle, provider_state,
}

empty_active : (hs : List AuthHandle) → is_some (map phase_of hs) ≡ false → to_u32 (length hs) ≡ 0
empty_active [] h = refl
empty_active (x ∷ hs) h = ground arith

active_empty : (hs : List AuthHandle) → is_some (map phase_of hs) ≡ true → to_u32 (length hs) ≢ 0
active_empty [] h = ground arith
active_empty (x ∷ hs) h = ground arith

any_is_some :
    (f : StreamConnection → Bool) (ss : List StreamConnection)
    → is_some ss ≡ false
    → any_of f ss ≡ false
any_is_some f [] h = refl
any_is_some f (s ∷ ss) h = ground arith

-- `provider_state` by cases, for substreams of which `up` tells that some is up, `some_active` that
-- there are any, `rejected` that some is down on a rejection, and `lost` that some is down.
module _ (p : ProviderSnapshot) (up some_active rejected lost auth ever : Bool)
    (connected_iff : (p.state ≡ is_connected) ↔ (up ≡ true))
    (unauthenticated_iff : (p.state ≡ is_unauthenticated)
      ↔ ((up ≡ false) × ((rejected || (not some_active && auth)) ≡ true)))
    (disconnected_iff : (p.state ≡ is_disconnected) ↔ (
      (up ≡ false)
      × ((rejected || (not some_active && auth)) ≡ false)
      × ((lost || (not some_active && ever)) ≡ true)))
    (none_up : some_active ≡ false → up ≡ false)
    (none_rejected : some_active ≡ false → rejected ≡ false)
    (none_lost : some_active ≡ false → lost ≡ false)
    (no_active : some_active ≡ false → p.active_subscriptions ≡ 0)
    (active : some_active ≡ true → p.active_subscriptions ≢ 0) where
  shown_lem :
      ((provider_state p ≡ disabled_provider) ↔ (p.enabled ≡ false))
      × ((provider_state p ≡ connected_provider) ↔ ((p.enabled ≡ true) × (up ≡ true)))
      × ((provider_state p ≡ unauthenticated_provider)
          ↔ ((p.enabled ≡ true) × (up ≡ false) × ((rejected || (not some_active && auth)) ≡ true)))
      × ((provider_state p ≡ idle) ↔ ((p.enabled ≡ true) × (some_active ≡ false) × (auth ≡ false)))
      × ((provider_state p ≡ disconnected_provider)
          ↔ ((p.enabled ≡ true) × (up ≡ false) × (rejected ≡ false) × (lost ≡ true)))
      × ((provider_state p ≡ connecting) ↔ (
          (p.enabled ≡ true)
          × (some_active ≡ true)
          × (up ≡ false)
          × (lost ≡ false)
          × (rejected ≡ false)))
  unfolding provider_state
  shown_lem = (
    (ground arith, ground arith),
    (ground arith, ground arith),
    (ground arith, ground arith),
    (ground arith, ground arith),
    (ground arith, ground arith),
    (ground arith, ground arith),
  )

-- When each state is shown of a provider, by the phases of its own active substreams.
pub record ShownFrom (phases : List StreamConnection) (acc : ProviderAccounting) (enabled : Bool)
    (shown : ProviderState) : Type 0 where
  pub of_disabled : (shown ≡ disabled_provider) ↔ (enabled ≡ false)
  pub of_connected :
      (shown ≡ connected_provider) ↔ ((enabled ≡ true) × (any_of is_up phases ≡ true))
  pub of_unauthenticated : (shown ≡ unauthenticated_provider) ↔ (
      (enabled ≡ true)
      × (any_of is_up phases ≡ false)
      × ((any_of is_rejected phases || (not (is_some phases) && acc.auth_failed)) ≡ true))
  pub of_idle :
      (shown ≡ idle) ↔ ((enabled ≡ true) × (is_some phases ≡ false) × (acc.auth_failed ≡ false))
  pub of_disconnected : (shown ≡ disconnected_provider) ↔ (
      (enabled ≡ true)
      × (any_of is_up phases ≡ false)
      × (any_of is_rejected phases ≡ false)
      × (any_of is_down phases ≡ true))
  pub of_connecting : (shown ≡ connecting) ↔ (
      (enabled ≡ true)
      × (is_some phases ≡ true)
      × (any_of is_up phases ≡ false)
      × (any_of is_down phases ≡ false)
      × (any_of is_rejected phases ≡ false))

-- The state shown of a provider, from the phases of its own active substreams: disabled exactly if
-- it is not enabled; and while it is enabled, connected exactly if some substream is up,
-- unauthenticated exactly if none is and one is down on a rejection or, with none active, the last
-- rejection stands, idle exactly if none is active and no rejection stands, disconnected exactly if
-- one is down, none on a rejection, and none is up, and connecting exactly if there are some and
-- none is up or down.
pub provider_state-agrees :
    (handles : List AuthHandle) (facts : Option ProviderFacts) (id : String)
    (acc : ProviderAccounting)
    → ShownFrom
        (map phase_of (own_handles id handles))
        acc
        (enabled_of facts)
        (provider_state (provider_snapshot handles facts id acc))
unfolding provider_state provider_snapshot
provider_state-agrees handles facts id acc =
    let own = own_handles id handles in
    let phases = map phase_of own in
    let state = connection_state_lem acc phases in
    let (of_disabled, of_connected, of_unauthenticated, of_idle, of_disconnected, of_connecting) =
      shown_lem (provider_snapshot handles facts id acc) (any_of is_up phases) (is_some phases)
        (any_of is_rejected phases) (any_of is_down phases) acc.auth_failed acc.ever_connected
        state.0 state.1 state.2 (any_is_some is_up phases) (any_is_some is_rejected phases)
        (any_is_some is_down phases) (empty_active own) (active_empty own) in
    record {
      of_disabled = of_disabled;
      of_connected = of_connected;
      of_unauthenticated = of_unauthenticated;
      of_idle = of_idle;
      of_disconnected = of_disconnected;
      of_connecting = of_connecting;
    }
