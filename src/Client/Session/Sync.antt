-- ===== src/Client/Session/Sync.antt =====
-- What a client session shows of itself is what it holds.
use datamancer.Base.{
  ℕ, ◌≡◌, refl, Bool, true, false, ◌⊎◌, inl, inr, Option, none, some, String, List, [], ◌∷◌, length,
  lookup, if◌then◌else◌, arith,
}
use datamancer.Core.Event.{Timestamp, MarketEvent, trade, quote, bar, control, ControlKind}
use datamancer.Channel.{Channel}
use datamancer.Client.Ring.{Entry, InstrumentGap, ClientRing, into_parts}
use datamancer.Client.Ring
use datamancer.Client.Occupancy.{record_drops, set_occupancy, set_subscriptions}
use datamancer.Client.Session.{
  Key, key_eq, keys, ClientSink, attached, detached, ClientController, ClientCommand,
  subscribe_command, unsubscribe_command, take_events, list_subscriptions, close, deliver,
  deliver_to, deliver_sent, buffered, route, admit, admit_control, note_conn, duplicate_error,
  handle_command, handle_substream_end, subscribe, unsubscribe, sync_subscriptions, prepare_attach,
  flush_ring, deliver_gaps, deliver_entries, emit_session_closing, gap_event, attach_reply,
  flush_prior, unsubscribe_from, subscribe_to, joined, end_of, provider_or, ended,
  events_already_taken,
}
use datamancer.Session.Options.{Scope, live, historical}

module _ (ch : Channel) where
  abbrev held : ClientSink ch → ℕ
  held (attached tx) = 0
  held (detached ring) = length ring.buf

  -- The counters shown agree with the sink and the entries.
  pub record IsInSync (c : ClientController ch) : Type 0 where
    pub occupancy : c.stats.occupancy ≡ held c.sink
    pub subscriptions : c.stats.subscriptions ≡ keys c.entries

  buffered-IsInSync :
      (c : ClientController ch) (ring : ClientRing) (evicted : Bool)
      → c.stats.subscriptions ≡ keys c.entries
      → IsInSync (buffered ch c (ring, evicted))
  unfolding record_drops set_occupancy
  buffered-IsInSync c ring true s = record { occupancy = refl; subscriptions = s }
  buffered-IsInSync c ring false s = record { occupancy = refl; subscriptions = s }

  deliver_sent-IsInSync :
      (c : ClientController ch) (ev : MarketEvent) (provider : String) (sent : Bool) (tx : ch.Tx)
      → c.stats.occupancy ≡ 0
      → c.stats.subscriptions ≡ keys c.entries
      → IsInSync (deliver_sent ch c ev provider (sent, tx))
  deliver_sent-IsInSync c ev provider true tx o s = record { occupancy = o; subscriptions = s }
  deliver_sent-IsInSync c ev provider false tx o s =
      let (ring, evicted) = Ring.push (Ring.new c.ring_capacity) ev provider in
      buffered-IsInSync c ring evicted s

  deliver_to-IsInSync :
      (c : ClientController ch) (sink : ClientSink ch) (ev : MarketEvent) (provider : String)
      → c.stats.occupancy ≡ held sink
      → c.stats.subscriptions ≡ keys c.entries
      → IsInSync (deliver_to ch c sink ev provider)
  deliver_to-IsInSync c (attached tx) ev provider o s = go (ch.is_closed tx)
    where
      go :
          (gone : Bool)
          → IsInSync (
              if gone
              then buffered ch c (Ring.push (Ring.new c.ring_capacity) ev provider)
              else deliver_sent ch c ev provider (ch.send tx ev))
      go true =
          let (ring, evicted) = Ring.push (Ring.new c.ring_capacity) ev provider in
          buffered-IsInSync c ring evicted s
      go false = let (sent, tx') = ch.send tx ev in deliver_sent-IsInSync c ev provider sent tx' o s
  deliver_to-IsInSync c (detached ring) ev provider o s =
      let (ring', evicted) = Ring.push ring ev provider in buffered-IsInSync c ring' evicted s

  deliver-IsInSync :
      (c : ClientController ch) (ev : MarketEvent) (provider : String)
      → IsInSync c
      → IsInSync (deliver ch c ev provider)
  unfolding deliver
  deliver-IsInSync c ev provider v =
      deliver_to-IsInSync c c.sink ev provider v.occupancy v.subscriptions

  admit_control-IsInSync :
      (c : ClientController ch) (k : ControlKind) → IsInSync c → IsInSync (admit_control ch c k).1
  unfolding admit_control note_conn duplicate_error
  admit_control-IsInSync c k v = record {
    occupancy = ground (arith, v.occupancy);
    subscriptions = ground (arith, v.subscriptions);
  }

  admit-IsInSync :
      (c : ClientController ch) (ev : MarketEvent) → IsInSync c → IsInSync (admit ch c ev).1
  unfolding admit
  admit-IsInSync c (control k) v = admit_control-IsInSync c k.kind v
  admit-IsInSync c (trade t) v = v
  admit-IsInSync c (quote q) v = v
  admit-IsInSync c (bar b) v = v

  route-IsInSync :
      (c : ClientController ch) (key : Key) (ev : MarketEvent)
      → IsInSync c
      → IsInSync (route ch c key ev)
  unfolding route
  route-IsInSync c key ev v = go (admit ch c ev).0
    where
      go :
          (forwarded : Bool)
          → IsInSync (
              if forwarded
              then deliver ch (admit ch c ev).1 ev (provider_or (lookup key c.entries) key)
              else (admit ch c ev).1)
      go true = deliver-IsInSync (admit ch c ev).1 ev _ (admit-IsInSync c ev v)
      go false = admit-IsInSync c ev v

  sync-IsInSync :
      (c : ClientController ch)
      → c.stats.occupancy ≡ held c.sink
      → IsInSync (sync_subscriptions ch c)
  unfolding sync_subscriptions set_subscriptions
  sync-IsInSync c o = record { occupancy = o; subscriptions = refl }

  deliver_gaps-IsInSync :
      (gs : List InstrumentGap) (c : ClientController ch)
      → IsInSync c
      → IsInSync (deliver_gaps ch c gs)
  unfolding deliver_gaps
  deliver_gaps-IsInSync [] c v = v
  deliver_gaps-IsInSync (g ∷ gs) c v =
      deliver_gaps-IsInSync gs (deliver ch c (gap_event g) g.provider)
        (deliver-IsInSync c (gap_event g) g.provider v)

  deliver_entries-IsInSync :
      (es : List Entry) (c : ClientController ch) → IsInSync c → IsInSync (deliver_entries ch c es)
  unfolding deliver_entries
  deliver_entries-IsInSync [] c v = v
  deliver_entries-IsInSync ((ev, provider) ∷ es) c v =
      deliver_entries-IsInSync es (deliver ch c ev provider) (deliver-IsInSync c ev provider v)

  flush_prior-IsInSync :
      (c : ClientController ch) (prior : Option ClientRing)
      → IsInSync c
      → IsInSync (flush_prior ch c prior)
  unfolding flush_ring
  flush_prior-IsInSync c none v = v
  flush_prior-IsInSync c (some ring) v =
      let (gaps, events) = into_parts ring in
      deliver_entries-IsInSync events (deliver_gaps ch c gaps) (deliver_gaps-IsInSync gaps c v)

  take-IsInSync :
      (c : ClientController ch) (sink : ClientSink ch) (tx : ch.Tx)
      → IsInSync c
      → IsInSync (attach_reply ch c (prepare_attach ch c sink tx)).1
  unfolding set_occupancy
  take-IsInSync c (attached old) tx v = go (ch.is_closed old)
    where
      go :
          (gone : Bool)
          → IsInSync
              (attach_reply ch c (
                if gone
                then inr (record c { sink = attached tx; stats = set_occupancy c.stats 0 }, none)
                else inl events_already_taken)).1
      go true = record { occupancy = refl; subscriptions = v.subscriptions }
      go false = v
  take-IsInSync c (detached ring) tx v =
      flush_prior-IsInSync (record c { sink = attached tx; stats = set_occupancy c.stats 0 })
        (some ring) (record { occupancy = refl; subscriptions = v.subscriptions })

  unsubscribe-IsInSync :
      (c : ClientController ch) (entry : Option String) (now : Timestamp) (key : Key)
      → IsInSync c
      → IsInSync (unsubscribe_from ch c entry now key).1
  unsubscribe-IsInSync c none now key v = v
  unsubscribe-IsInSync c (some provider) now key v =
      deliver-IsInSync _ (ended now key provider) provider (sync-IsInSync _ v.occupancy)

  joined-IsInSync :
      (c : ClientController ch) (key : Key) (answer : String ⊎ String)
      → IsInSync c
      → IsInSync (joined ch c key answer).1
  joined-IsInSync c key (inl e) v = v
  joined-IsInSync c key (inr provider) v = sync-IsInSync _ v.occupancy

  subscribe-IsInSync :
      (c : ClientController ch) (entry : Option String) (key : Key) (scope : Scope)
      (answer : String ⊎ String)
      → IsInSync c
      → IsInSync (subscribe_to ch c entry key scope answer).1
  subscribe-IsInSync c (some provider) key scope answer v = v
  subscribe-IsInSync c none key (live none) answer v = joined-IsInSync c key answer v
  subscribe-IsInSync c none key (live (some from)) answer v = v
  subscribe-IsInSync c none key (historical from to) answer v = v

  end-IsInSync :
      (c : ClientController ch) (entry : Option String) (now : Timestamp) (key : Key)
      → IsInSync c
      → IsInSync (end_of ch c entry now key)
  end-IsInSync c none now key v = v
  end-IsInSync c (some provider) now key v =
      deliver-IsInSync _ (ended now key provider) provider (sync-IsInSync _ v.occupancy)

  handle_command-IsInSync :
      (c : ClientController ch) (now : Timestamp) (command : ClientCommand ch)
      → IsInSync c
      → IsInSync (handle_command ch c now command).2
  unfolding handle_command subscribe unsubscribe emit_session_closing
  handle_command-IsInSync c now (subscribe_command key scope answer) v =
      subscribe-IsInSync c (lookup key c.entries) key scope answer v
  handle_command-IsInSync c now (unsubscribe_command key) v =
      unsubscribe-IsInSync c (lookup key c.entries) now key v
  handle_command-IsInSync c now (take_events tx) v = take-IsInSync c c.sink tx v
  handle_command-IsInSync c now list_subscriptions v = v
  handle_command-IsInSync c now close v = deliver-IsInSync c _ "" v

-- One turn of the controller's loop.
pub data Step (ch : Channel) : ClientController ch → ClientController ch → Type 0 where
  event : (c : ClientController ch) (key : Key) (ev : MarketEvent) → Step ch c (route ch c key ev)
  end :
      (c : ClientController ch) (now : Timestamp) (key : Key)
      → Step ch c (handle_substream_end ch c now key)
  command :
      (c : ClientController ch) (now : Timestamp) (cmd : ClientCommand ch)
      → Step ch c (handle_command ch c now cmd).2

pub data Steps (ch : Channel) (start : ClientController ch) : ClientController ch → Type 0 where
  started : Steps ch start start
  stepped : {c d : ClientController ch} → Steps ch start c → Step ch c d → Steps ch start d

Step-IsInSync :
    (ch : Channel) (c d : ClientController ch) → Step ch c d → IsInSync ch c → IsInSync ch d
unfolding handle_substream_end
Step-IsInSync ch c d (event c' key ev) v = route-IsInSync ch c key ev v
Step-IsInSync ch c d (end c' now key) v =
    end-IsInSync ch _ (lookup key c.entries) now key
      (record { occupancy = v.occupancy; subscriptions = v.subscriptions })
Step-IsInSync ch c d (command c' now cmd) v = handle_command-IsInSync ch c now cmd v

-- However the controller runs on, whatever it is sent and whether its consumer reads, leaves or
-- comes back: the buffered events and the subscriptions that a snapshot shows are the number in its
-- ring and the keys of its entries.
pub Steps-IsInSync :
    (ch : Channel) (c d : ClientController ch) → IsInSync ch c → Steps ch c d → IsInSync ch d
Steps-IsInSync ch c d v started = v
Steps-IsInSync ch c d v (stepped {c = b} s step) =
    Step-IsInSync ch b d step (Steps-IsInSync ch c b v s)
