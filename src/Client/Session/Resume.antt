-- ===== src/Client/Session/Resume.antt =====
-- A consumer that comes back to a client session is given the loss and what its ring kept.
use datamancer.Base.{
  ◌≡◌, refl, sym, ap, ◌∙◌, true, false, String, List, [], ◌∷◌, ◌++◌, map, arith, append_nil, subst,
}
use mathlib.Core.List.{append_assoc}
use datamancer.Core.Event.{Timestamp, MarketEvent}
use datamancer.Channel.{Channel}
use datamancer.Client.Ring.{Entry, InstrumentGap, ClientRing, into_parts}
use datamancer.Client.Session.{
  ClientSink, attached, detached, ClientController, deliver, deliver_gaps, deliver_entries,
  flush_ring, gap_event, handle_command, take_events, prepare_attach, attach_reply, succeeded,
  replied,
}

module _ (ch : Channel) where
  -- The channel accepts the events one after the other.
  abbrev Accepts : ch.Tx → List MarketEvent → Type 0
  Accepts tx [] = Unit
  Accepts tx (ev ∷ evs) =
      (ch.is_closed tx ≡ false) × ((ch.send tx ev).0 ≡ true) × Accepts (ch.send tx ev).1 evs

  abbrev pub event_of : Entry → MarketEvent
  event_of (ev, provider) = ev

  deliver_open :
      (c : ClientController ch) (tx : ch.Tx) (ev : MarketEvent) (provider : String)
      → c.sink ≡ attached tx
      → ch.is_closed tx ≡ false
      → (ch.send tx ev).0 ≡ true
      → (deliver ch c ev provider).sink ≡ attached (ch.send tx ev).1
  unfolding deliver
  deliver_open c tx ev provider e is_open sent = ground arith

  abbrev gap_entry : InstrumentGap → Entry
  gap_entry g = (gap_event g, g.provider)

  deliver_gaps-entries :
      (gs : List InstrumentGap) (es : List Entry) (c : ClientController ch)
      → deliver_entries ch (deliver_gaps ch c gs) es ≡ deliver_entries ch c (map gap_entry gs ++ es)
  unfolding deliver_gaps deliver_entries
  deliver_gaps-entries [] es c = refl
  deliver_gaps-entries (g ∷ gs) es c =
      deliver_gaps-entries gs es (deliver ch c (gap_event g) g.provider)

  deliver_entries-received :
      (es : List Entry) (c : ClientController ch) (tx : ch.Tx)
      → c.sink ≡ attached tx
      → Accepts tx (map event_of es)
      → (tx' : ch.Tx) × ((deliver_entries ch c es).sink ≡ attached tx')
        × (ch.received tx' ≡ ch.received tx ++ map event_of es)
  unfolding deliver_entries
  deliver_entries-received [] c tx e a = (tx, e, sym (append_nil (ch.received tx)))
  deliver_entries-received ((ev, provider) ∷ es) c tx e a =
      let (tx', e', r) =
        deliver_entries-received es (deliver ch c ev provider) (ch.send tx ev).1
          (deliver_open c tx ev provider e a.0 a.1) a.2 in
      (
        tx',
        e',
        r
            ∙ rw (ch.send_accepts tx ev a.1)
                (append_assoc (ch.received tx) (ev ∷ []) (map event_of es)),
      )

  map-append :
      (gs : List InstrumentGap) (es : List Entry)
      → map event_of (map gap_entry gs ++ es) ≡ map gap_event gs ++ map event_of es
  map-append [] es = refl
  map-append (g ∷ gs) es = ap (◌∷◌ (gap_event g)) (map-append gs es)

  -- The channel of the sink has received `evs` on top of what it had.
  abbrev pub Delivered : ch.Tx → ClientSink ch → List MarketEvent → Type 0
  Delivered tx sink evs =
      (tx' : ch.Tx) × (sink ≡ attached tx') × (ch.received tx' ≡ ch.received tx ++ evs)

  flush_ring-Delivered :
      (c : ClientController ch) (ring : ClientRing) (tx : ch.Tx)
      → c.sink ≡ attached tx
      → Accepts tx (map gap_event (into_parts ring).0 ++ map event_of (into_parts ring).1)
      → Delivered tx
          (flush_ring ch c ring).sink
          (map gap_event (into_parts ring).0 ++ map event_of (into_parts ring).1)
  unfolding flush_ring
  flush_ring-Delivered c ring tx e a =
      let (gaps, events) = into_parts ring in
      let es = map gap_entry gaps ++ events in
      let (tx', at_tx', received) =
        deliver_entries-received es c tx e (subst (Accepts tx) (sym (map-append gaps events)) a) in
      (
        tx',
        ap (λ d. d.sink) (deliver_gaps-entries gaps events c) ∙ at_tx',
        received ∙ ap (λ evs. ch.received tx ++ evs) (map-append gaps events),
      )

  -- When a consumer takes the events of a session whose sink is detached, and its new channel
  -- accepts what is replayed, it succeeds, the sink is attached, and the channel then has the gap
  -- reports of the ring, by their sequence numbers, and after them the buffered events in order.
  pub take_events-replays :
      (c : ClientController ch) (ring : ClientRing) (now : Timestamp) (tx : ch.Tx)
      → c.sink ≡ detached ring
      → Accepts tx (map gap_event (into_parts ring).0 ++ map event_of (into_parts ring).1)
      → let (goes_on, reply, d) = handle_command ch c now (take_events tx) in
        (reply ≡ replied succeeded)
        × Delivered tx d.sink
            (map gap_event (into_parts ring).0 ++ map event_of (into_parts ring).1)
  unfolding handle_command
  take_events-replays c ring now tx e a =
      subst
        (λ sink.
          let (reply, d) = attach_reply ch c (prepare_attach ch c sink tx) in
          (reply ≡ replied succeeded)
          × Delivered tx d.sink
              (map gap_event (into_parts ring).0 ++ map event_of (into_parts ring).1))
        (sym e) (refl, flush_ring-Delivered _ ring tx refl a)
