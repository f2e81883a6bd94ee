-- ===== src/Provider/Accounting/Connections.antt =====
-- The provider's connection state, and the counters folded from its controls.
use datamancer.Base.{◌≡◌, ◌↔◌, ◌∙◌, Bool, true, false, not, ◌&&◌, ◌||◌, List, [], ◌∷◌, arith}
use datamancer.Client.Stats.{StreamConnection, pending, up, down}
use datamancer.Client.Stats.Connection.{is_up, is_down}
use datamancer.Provider.Accounting.{
  ProviderAccounting, is_connected, is_disconnected, is_unauthenticated, Phases, see_all,
  connection_state, decide_state, is_unauthenticated_cause,
}

abbrev pub any_of : (StreamConnection → Bool) → List StreamConnection → Bool
any_of f [] = false
any_of f (s ∷ ss) = f s || any_of f ss

abbrev pub is_rejected : StreamConnection → Bool
is_rejected (down since cause) = is_unauthenticated_cause cause
is_rejected _ = false

abbrev pub is_some : List StreamConnection → Bool
is_some [] = false
is_some (s ∷ ss) = true

see_all_lem :
    (ss : List StreamConnection) (p : Phases)
    → see_all p ss ≡ record {
      any_seen = p.any_seen || is_some ss;
      up_seen = p.up_seen || any_of is_up ss;
      down_seen = p.down_seen || any_of is_down ss;
      rejected = p.rejected || any_of is_rejected ss;
    }
unfolding see_all
see_all_lem [] p = ground arith
see_all_lem (up since ∷ ss) p = see_all_lem ss _ ∙ ground arith
see_all_lem (down since cause ∷ ss) p = see_all_lem ss _ ∙ ground arith
see_all_lem (pending ∷ ss) p = see_all_lem ss _ ∙ ground arith

-- The state of a provider whose active substreams are in the phases `ss`: connected exactly if
-- some is up; else unauthenticated exactly if some is down on an authentication rejection, or there
-- are none and the last rejection stands; else disconnected exactly if some is down, or there are
-- none and the provider was ever connected.
pub connection_state_lem :
    (a : ProviderAccounting) (ss : List StreamConnection)
    → let rejected = any_of is_rejected ss || (not (is_some ss) && a.auth_failed) in
      let lost = any_of is_down ss || (not (is_some ss) && a.ever_connected) in
      ((connection_state a ss ≡ is_connected) ↔ (any_of is_up ss ≡ true))
      × ((connection_state a ss ≡ is_unauthenticated)
          ↔ ((any_of is_up ss ≡ false) × (rejected ≡ true)))
      × ((connection_state a ss ≡ is_disconnected)
          ↔ ((any_of is_up ss ≡ false) × (rejected ≡ false) × (lost ≡ true)))
unfolding connection_state decide_state
connection_state_lem a ss =
    let seen =
      see_all_lem ss
        (record { any_seen = false; up_seen = false; down_seen = false; rejected = false }) in
    (
      (ground (arith, seen), ground (arith, seen)),
      (ground (arith, seen), ground (arith, seen)),
      (ground (arith, seen), ground (arith, seen)),
    )
