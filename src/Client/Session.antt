-- ===== src/Client/Session.antt =====
-- crates/datamancer/src/client.rs: `ClientController`, the multiplexer of one client session. What
-- the engine answers to a join, the wall clock and the channels are arguments; the guard in an entry
-- is the engine's referrer, released when the entry goes.
pub mod Coalesce
pub mod Sync
pub mod Resume
use datamancer.Base.{
  ℕ, Bool, true, false, not, ◌&&◌, ◌≡◌, ◌↔◌, ◌⊎◌, inl, inr, refl, Option, none, some, String, List,
  [], ◌∷◌, ◌==◌, Eq, string_eq, lookup, insert, remove, length, arith, if◌then◌else◌,
}
use datamancer.Core.Instrument.{Instrument, instrument_eq}
use datamancer.Core.Event.{
  Timestamp, EventKind, kind_eq, GapSpan, MarketEvent, trade, quote, bar, control, Control,
  ControlKind, gap, synthetic, provider_connected, provider_disconnected, provider_error,
  subscription_changed, session_closing,
}
use datamancer.Channel.{Channel}
use datamancer.Client.Ring
use datamancer.Client.Ring.{ClientRing, Entry, InstrumentGap, into_parts}
use datamancer.Client.Occupancy.{ClientStats, record_drops, set_occupancy, set_subscriptions}
use datamancer.Session.Options.{Scope, live, historical, PersistenceOptions}

abbrev pub Key : Type 0
Key = Instrument × EventKind

abbrev key_beq : Key → Key → Bool
key_beq (i, k) (j, l) = i == j && k == l

key_beq_sound : (a b : Key) → key_beq a b ≡ true → a ≡ b
key_beq_sound (i, k) (j, l) h = ground (arith, instrument_eq.beq_iff i j, kind_eq.beq_iff k l)

key_beq_refl : (a b : Key) → a ≡ b → key_beq a b ≡ true
key_beq_refl (i, k) (j, l) h = ground (arith, instrument_eq.beq_iff i j, kind_eq.beq_iff k l)

pub key_beq_iff : (a b : Key) → (key_beq a b ≡ true) ↔ (a ≡ b)
key_beq_iff a b = (key_beq_sound a b, key_beq_refl a b)

instance abbrev pub key_eq : Eq Key
key_eq = record { beq = key_beq; beq_iff = key_beq_iff }

pub data ClientSink (ch : Channel) : Type 0 where
  attached : ch.Tx → ClientSink ch
  detached : ClientRing → ClientSink ch

pub data ConnState : Type 0 where
  is_up is_down : ConnState

abbrev conn_beq : ConnState → ConnState → Bool
conn_beq is_up is_up = true
conn_beq is_down is_down = true
conn_beq _ _ = false

pub data Error : Type 0 where
  duplicate_subscription not_subscribed : Key → Error
  unsupported_client_scope events_already_taken : Error
  refused : String → Error

-- `Result<()>`
pub data Outcome : Type 0 where
  succeeded : Outcome
  failed : Error → Outcome

-- `entries` maps a pair to its provider, and `streams` holds the pairs whose substream is polled.
pub record ClientController (ch : Channel) : Type 0 where
  pub entries : List (Key × String)
  pub streams : List Key
  pub sink : ClientSink ch
  pub ring_capacity : ℕ
  pub seen_provider_state : List (String × ConnState)
  pub last_provider_error : List (String × String)
  pub stats : ClientStats

abbrev pub keys {ℓ} : {A : Type ℓ} → List (Key × A) → List Key
keys [] = []
keys ((k, v) ∷ m) = k ∷ keys m

pub sync_subscriptions : (ch : Channel) → ClientController ch → ClientController ch
sync_subscriptions ch c = record c { stats = set_subscriptions c.stats (keys c.entries) }

-- The detached half of `deliver`, after the sink has a ring.
abbrev pub buffered : (ch : Channel) → ClientController ch → ClientRing × Bool → ClientController ch
buffered ch c (ring, evicted) = record c {
  sink = detached ring;
  stats = set_occupancy (if evicted then record_drops c.stats 1 else c.stats) (length ring.buf);
}

abbrev pub deliver_sent :
    (ch : Channel) → ClientController ch → MarketEvent → String → Bool × ch.Tx → ClientController ch
deliver_sent ch c ev provider (true, tx) = record c { sink = attached tx }
deliver_sent ch c ev provider (false, tx) =
    buffered ch c (Ring.push (Ring.new c.ring_capacity) ev provider)

abbrev pub deliver_to :
    (ch : Channel)
    → ClientController ch
    → ClientSink ch
    → MarketEvent
    → String
    → ClientController ch
deliver_to ch c (attached tx) ev provider =
    if ch.is_closed tx
    then buffered ch c (Ring.push (Ring.new c.ring_capacity) ev provider)
    else deliver_sent ch c ev provider (ch.send tx ev)
deliver_to ch c (detached ring) ev provider = buffered ch c (Ring.push ring ev provider)

pub deliver : (ch : Channel) → ClientController ch → MarketEvent → String → ClientController ch
deliver ch c ev provider = deliver_to ch c c.sink ev provider

abbrev same_state : Option ConnState → ConnState → Bool
same_state none new = false
same_state (some current) new = conn_beq current new

-- The flag tells that the transition is new.
pub note_conn :
    (ch : Channel) → ClientController ch → String → ConnState → Bool × ClientController ch
note_conn ch c provider new =
    if same_state (lookup provider c.seen_provider_state) new
    then (false, c)
    else (true, record c { seen_provider_state = insert provider new c.seen_provider_state })

abbrev same_message : Option String → String → Bool
same_message none message = false
same_message (some last) message = last == message

-- The flag tells that the error repeats the last one.
pub duplicate_error :
    (ch : Channel) → ClientController ch → String → String → Bool × ClientController ch
duplicate_error ch c provider message =
    if same_message (lookup provider c.last_provider_error) message
    then (true, c)
    else (false, record c { last_provider_error = insert provider message c.last_provider_error })

-- What `route` makes of a control before it delivers: whether it forwards it.
pub admit_control : (ch : Channel) → ClientController ch → ControlKind → Bool × ClientController ch
unfolding note_conn duplicate_error
admit_control ch c session_closing = (false, c)
admit_control ch c (provider_connected provider) = note_conn ch c provider is_up
admit_control ch c (provider_disconnected provider reason cause) = note_conn ch c provider is_down
admit_control ch c (provider_error provider message) =
    let (duplicate, c') = duplicate_error ch c provider message in (not duplicate, c')
admit_control ch c (subscription_changed provider instrument kind active) = (true, c)
admit_control ch c (gap provider instrument span) = (true, c)

pub admit : (ch : Channel) → ClientController ch → MarketEvent → Bool × ClientController ch
unfolding admit_control
admit ch c (control k) = admit_control ch c k.kind
admit ch c ev = (true, c)

abbrev pub provider_or : Option String → Key → String
provider_or none key = key.0.provider
provider_or (some provider) key = provider

pub route : (ch : Channel) → ClientController ch → Key → MarketEvent → ClientController ch
unfolding admit deliver
route ch c key ev =
    let (forwarded, c') = admit ch c ev in
    if forwarded then deliver ch c' ev (provider_or (lookup key c.entries) key) else c'

-- `subscription_changed(…, false)` and `emit_session_closing`, which ride outside the numbering
abbrev pub ended : Timestamp → Key → String → MarketEvent
ended now (instrument, kind) provider = control (record {
  source_ts = now;
  rx_ts = now;
  seq = synthetic;
  kind = subscription_changed provider instrument kind false;
})

pub emit_session_closing : (ch : Channel) → ClientController ch → Timestamp → ClientController ch
unfolding deliver
emit_session_closing ch c now =
    deliver ch c
      (control (record { source_ts = now; rx_ts = now; seq = synthetic; kind = session_closing }))
      ""

abbrev pub prepare_attach :
    (ch : Channel)
    → ClientController ch
    → ClientSink ch
    → ch.Tx
    → (Error ⊎ (ClientController ch × Option ClientRing))
prepare_attach ch c (attached old) tx =
    if ch.is_closed old
    then inr (record c { sink = attached tx; stats = set_occupancy c.stats 0 }, none)
    else inl events_already_taken
prepare_attach ch c (detached ring) tx =
    inr (record c { sink = attached tx; stats = set_occupancy c.stats 0 }, some ring)

abbrev pub gap_event : InstrumentGap → MarketEvent
gap_event g = control (record {
  source_ts = g.span.from_source_ts;
  rx_ts = g.span.from_source_ts;
  seq = g.first_seq;
  kind = gap g.provider g.instrument g.span;
})

pub deliver_gaps : (ch : Channel) → ClientController ch → List InstrumentGap → ClientController ch
unfolding deliver
deliver_gaps ch c [] = c
deliver_gaps ch c (g ∷ gs) = deliver_gaps ch (deliver ch c (gap_event g) g.provider) gs

pub deliver_entries : (ch : Channel) → ClientController ch → List Entry → ClientController ch
unfolding deliver
deliver_entries ch c [] = c
deliver_entries ch c ((ev, provider) ∷ es) = deliver_entries ch (deliver ch c ev provider) es

pub flush_ring : (ch : Channel) → ClientController ch → ClientRing → ClientController ch
unfolding deliver_gaps deliver_entries
flush_ring ch c ring =
    let (gaps, events) = into_parts ring in deliver_entries ch (deliver_gaps ch c gaps) events

abbrev drop_key : Key → List Key → List Key
drop_key key [] = []
drop_key key (k ∷ ks) = if k == key then drop_key key ks else k ∷ drop_key key ks

-- `StreamMap::insert`, which replaces
abbrev insert_key : Key → List Key → List Key
insert_key key ks = key ∷ drop_key key ks

abbrev is_pure_live : Scope → Bool
is_pure_live (live none) = true
is_pure_live (live (some from)) = false
is_pure_live (historical from to) = false

-- The engine's answer to a join, `dm.authoritative`: an error, or the provider of the referrer.
abbrev pub joined :
    (ch : Channel) → ClientController ch → Key → (String ⊎ String) → Outcome × ClientController ch
joined ch c key (inl e) = (failed (refused e), c)
joined ch c key (inr provider) =
    let c' = record c {
      entries = insert key provider c.entries;
      streams = insert_key key c.streams;
    } in
    (succeeded, sync_subscriptions ch c')

abbrev pub subscribe_to :
    (ch : Channel)
    → ClientController ch
    → Option String
    → Key
    → Scope
    → (String ⊎ String)
    → Outcome × ClientController ch
subscribe_to ch c (some provider) key scope answer = (failed (duplicate_subscription key), c)
subscribe_to ch c none key scope answer =
    if is_pure_live scope then joined ch c key answer else (failed unsupported_client_scope, c)

pub subscribe :
    (ch : Channel)
    → ClientController ch
    → Key
    → Scope
    → (String ⊎ String)
    → Outcome × ClientController ch
unfolding sync_subscriptions
subscribe ch c key scope answer = subscribe_to ch c (lookup key c.entries) key scope answer

abbrev pub unsubscribe_from :
    (ch : Channel)
    → ClientController ch
    → Option String
    → Timestamp
    → Key
    → Outcome × ClientController ch
unsubscribe_from ch c none now key = (failed (not_subscribed key), c)
unsubscribe_from ch c (some provider) now key =
    let c' = record c { entries = remove key c.entries; streams = drop_key key c.streams } in
    (succeeded, deliver ch (sync_subscriptions ch c') (ended now key provider) provider)

pub unsubscribe :
    (ch : Channel) → ClientController ch → Timestamp → Key → Outcome × ClientController ch
unfolding sync_subscriptions deliver
unsubscribe ch c now key = unsubscribe_from ch c (lookup key c.entries) now key

-- A stream map drops a substream that has ended by itself.
abbrev pub end_of :
    (ch : Channel) → ClientController ch → Option String → Timestamp → Key → ClientController ch
end_of ch c none now key = c
end_of ch c (some provider) now key =
    deliver ch (sync_subscriptions ch (record c { entries = remove key c.entries }))
      (ended now key provider) provider

pub handle_substream_end :
    (ch : Channel) → ClientController ch → Timestamp → Key → ClientController ch
unfolding sync_subscriptions deliver
handle_substream_end ch c now key =
    end_of ch (record c { streams = drop_key key c.streams }) (lookup key c.entries) now key

-- `ClientCommand`, with what the environment gives to its handling
pub data ClientCommand (ch : Channel) : Type 0 where
  subscribe_command : Key → Scope → (answer : String ⊎ String) → ClientCommand ch
  unsubscribe_command : Key → ClientCommand ch
  take_events : (tx : ch.Tx) → ClientCommand ch
  list_subscriptions close : ClientCommand ch

pub data Reply : Type 0 where
  replied : Outcome → Reply
  listed : List Key → Reply

abbrev pub flush_prior :
    (ch : Channel) → ClientController ch → Option ClientRing → ClientController ch
flush_prior ch c none = c
flush_prior ch c (some ring) = flush_ring ch c ring

abbrev pub attach_reply :
    (ch : Channel)
    → ClientController ch
    → (Error ⊎ (ClientController ch × Option ClientRing))
    → Reply × ClientController ch
attach_reply ch c (inl e) = (replied (failed e), c)
attach_reply ch c (inr (c', prior)) = (replied (succeeded), flush_prior ch c' prior)

-- The flag tells that the controller goes on.
unfoldable pub handle_command :
    (ch : Channel)
    → ClientController ch
    → Timestamp
    → ClientCommand ch
    → Bool × Reply × ClientController ch
unfolding subscribe unsubscribe flush_ring emit_session_closing
handle_command ch c now (subscribe_command key scope answer) =
    let (reply, c') = subscribe ch c key scope answer in (true, replied reply, c')
handle_command ch c now (unsubscribe_command key) =
    let (reply, c') = unsubscribe ch c now key in (true, replied reply, c')
handle_command ch c now (take_events tx) =
    let (reply, c') = attach_reply ch c (prepare_attach ch c c.sink tx) in (true, reply, c')
handle_command ch c now list_subscriptions = (true, listed (keys c.entries), c)
handle_command ch c now close = (false, replied (succeeded), emit_session_closing ch c now)
