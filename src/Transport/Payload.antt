-- ===== src/Transport/Payload.antt =====
-- crates/datamancer-transport-iceoryx2/src/payload.rs: the wire record of an event, `to_pod` and
-- `from_pod`. Integers of the record are the numbers they carry.
pub mod Trip
use datamancer.Base.{
  ℕ, ℤ, pos, Bool, true, false, not, Option, none, some, String, List, if◌then◌else◌, ◌==◌, nat_eq,
}
use datamancer.Core.Instrument.{Instrument}
use datamancer.Core.Event.{
  Timestamp, Seq, BarInterval, one_second, one_minute, five_minute, fifteen_minute, one_hour,
  one_day, EventKind, trade_kind, quote_kind, bar_kind, MarketEvent, trade, quote, bar, control,
  Control, ControlKind, provider_connected, provider_disconnected, subscription_changed, gap,
  provider_error, session_closing, Trade, Quote, Bar,
}
use datamancer.Transport.Symbols.{
  SymbolId, connection, SymbolTable, Interned, interned, too_long, exhausted, SymbolResolver,
  resolve, intern,
}

-- `PayloadKind` and `ControlTag`, as bytes
abbrev trade_payload : ℕ
trade_payload = 0

abbrev quote_payload : ℕ
quote_payload = 1

abbrev bar_payload : ℕ
bar_payload = 2

abbrev control_payload : ℕ
control_payload = 3

abbrev gap_tag : ℕ
gap_tag = 0

abbrev subscription_tag : ℕ
subscription_tag = 1

abbrev closing_tag : ℕ
closing_tag = 2

abbrev interval_to_tag : BarInterval → ℕ
interval_to_tag one_second = 0
interval_to_tag one_minute = 1
interval_to_tag five_minute = 2
interval_to_tag fifteen_minute = 3
interval_to_tag one_hour = 4
interval_to_tag one_day = 5

abbrev tag_to_interval : ℕ → Option BarInterval
tag_to_interval tag =
    if tag == 0
    then some one_second
    else if tag == 1
    then some one_minute
    else if tag == 2
    then some five_minute
    else if tag == 3
    then some fifteen_minute
    else if tag == 4
    then some one_hour
    else if tag == 5
    then some one_day
    else none

-- `BAR_TAG_TRADE`, `BAR_TAG_QUOTE` and `BAR_TAG_BAR` are 0, 1 and 2.
abbrev event_kind_to_tags : EventKind → ℕ × ℕ
event_kind_to_tags trade_kind = (0, 0)
event_kind_to_tags quote_kind = (1, 0)
event_kind_to_tags (bar_kind interval) = (2, interval_to_tag interval)

abbrev bar_of : Option BarInterval → Option EventKind
bar_of none = none
bar_of (some interval) = some (bar_kind interval)

abbrev tags_to_event_kind : ℕ → ℕ → Option EventKind
tags_to_event_kind kind_tag interval_tag =
    if kind_tag == 0
    then some trade_kind
    else if kind_tag == 1
    then some quote_kind
    else if kind_tag == 2
    then bar_of (tag_to_interval interval_tag)
    else none

pub record DataPayload : Type 0 where
  pub kind : ℕ
  pub control_tag : ℕ
  pub interval : ℕ
  pub sub_kind : ℕ
  pub active : ℕ
  pub symbol : SymbolId
  pub seq : Seq
  pub source_ts : Timestamp
  pub rx_ts : Timestamp
  pub a : ℤ
  pub b : ℤ
  pub c : ℤ
  pub d : ℤ
  pub size0 : ℕ
  pub size1 : ℕ

abbrev pub blank : ℕ → SymbolId → Timestamp → Timestamp → Seq → DataPayload
blank kind symbol source_ts rx_ts seq = record {
  kind = kind;
  control_tag = 0;
  interval = 0;
  sub_kind = 0;
  active = 0;
  symbol = symbol;
  seq = seq;
  source_ts = source_ts;
  rx_ts = rx_ts;
  a = pos 0;
  b = pos 0;
  c = pos 0;
  d = pos 0;
  size0 = 0;
  size1 = 0;
}

-- `Result<Option<DataPayload>, InstrumentTooLong>` with the table, or the panic of `intern`.
pub data Encoded : Type 0 where
  encoded : Option DataPayload → SymbolTable → Encoded
  instrument_too_long : (encoded_len : ℕ) → Encoded
  ids_exhausted : Encoded

abbrev pub with_symbol : Interned → (SymbolId → DataPayload) → Encoded
with_symbol (interned id t) p = encoded (some (p id)) t
with_symbol (too_long n) p = instrument_too_long n
with_symbol exhausted p = ids_exhausted

abbrev pub byte : Bool → ℕ
byte true = 1
byte false = 0

abbrev pub trade_pod : Trade → SymbolId → DataPayload
trade_pod t id = record (blank trade_payload id t.source_ts t.rx_ts t.seq) {
  a = t.price;
  size0 = t.size;
}

abbrev pub quote_pod : Quote → SymbolId → DataPayload
quote_pod q id = record (blank quote_payload id q.source_ts q.rx_ts q.seq) {
  a = q.bid;
  b = q.ask;
  size0 = q.bid_size;
  size1 = q.ask_size;
}

abbrev pub bar_pod : Bar → SymbolId → DataPayload
bar_pod r id = record (blank bar_payload id r.source_ts r.rx_ts r.seq) {
  interval = interval_to_tag r.interval;
  a = r.open_price;
  b = r.high;
  c = r.low;
  d = r.close_price;
  size0 = r.volume;
}

abbrev pub control_pod : Control → SymbolId → ControlKind → DataPayload
control_pod c id (gap provider instrument span) =
    record (blank control_payload id c.source_ts c.rx_ts c.seq) {
      control_tag = gap_tag;
      a = span.from_source_ts;
      b = span.to_source_ts;
    }
control_pod c id (subscription_changed provider instrument kind active) =
    record (blank control_payload id c.source_ts c.rx_ts c.seq) {
      control_tag = subscription_tag;
      sub_kind = (event_kind_to_tags kind).0;
      interval = (event_kind_to_tags kind).1;
      active = byte active;
    }
control_pod c id _ = record (blank control_payload id c.source_ts c.rx_ts c.seq) {
  control_tag = closing_tag;
}

module _ (as_bytes : String → List ℕ) where
  unfoldable pub control_to_pod : Control → SymbolTable → ControlKind → Encoded
  unfolding intern
  control_to_pod c t (provider_connected provider) = encoded none t
  control_to_pod c t (provider_disconnected provider reason cause) = encoded none t
  control_to_pod c t (provider_error provider message) = encoded none t
  control_to_pod c t session_closing = encoded (some (control_pod c connection session_closing)) t
  control_to_pod c t (gap provider instrument span) =
      with_symbol (intern as_bytes t instrument)
        (λ id. control_pod c id (gap provider instrument span))
  control_to_pod c t (subscription_changed provider instrument kind active) =
      with_symbol (intern as_bytes t instrument)
        (λ id. control_pod c id (subscription_changed provider instrument kind active))

  unfoldable pub to_pod : MarketEvent → SymbolTable → Encoded
  unfolding control_to_pod intern
  to_pod (trade e) t = with_symbol (intern as_bytes t e.instrument) (trade_pod e)
  to_pod (quote e) t = with_symbol (intern as_bytes t e.instrument) (quote_pod e)
  to_pod (bar e) t = with_symbol (intern as_bytes t e.instrument) (bar_pod e)
  to_pod (control c) t = control_to_pod c t c.kind

-- `Result<MarketEvent, FromPodError>`
pub data Decoded : Type 0 where
  decoded : MarketEvent → Decoded
  unresolved : SymbolId → Decoded
  bad_discriminant : Decoded

-- `resolve(…)?`
abbrev with_instrument : Option Instrument → SymbolId → (Instrument → Decoded) → Decoded
with_instrument none id f = unresolved id
with_instrument (some i) id f = f i

-- `….ok_or(BadDiscriminant)?`
abbrev with_known {ℓ} : {A : Type ℓ} → Option A → (A → Decoded) → Decoded
with_known none f = bad_discriminant
with_known (some x) f = f x

unfoldable pub control_of : DataPayload → ControlKind → Decoded
control_of p kind =
    decoded
      (control (record { source_ts = p.source_ts; rx_ts = p.rx_ts; seq = p.seq; kind = kind }))

unfoldable pub control_from_pod : DataPayload → SymbolResolver → Decoded
unfolding control_of resolve
control_from_pod p r =
    if p.control_tag == closing_tag
    then control_of p session_closing
    else if p.control_tag == gap_tag
    then with_instrument (resolve r p.symbol) p.symbol
        (λ i. control_of p (gap i.provider i (record { from_source_ts = p.a; to_source_ts = p.b })))
    else if p.control_tag == subscription_tag
    then with_instrument (resolve r p.symbol) p.symbol (λ i.
      with_known (tags_to_event_kind p.sub_kind p.interval)
        (λ kind. control_of p (subscription_changed i.provider i kind (not (p.active == 0)))))
    else bad_discriminant

unfoldable pub from_pod : DataPayload → SymbolResolver → Decoded
unfolding control_from_pod resolve
from_pod p r =
    if p.kind == trade_payload
    then with_instrument (resolve r p.symbol) p.symbol (λ i. decoded (
        trade (record {
          instrument = i;
          source_ts = p.source_ts;
          rx_ts = p.rx_ts;
          seq = p.seq;
          price = p.a;
          size = p.size0;
        })))
    else if p.kind == quote_payload
    then with_instrument (resolve r p.symbol) p.symbol (λ i. decoded (
        quote (record {
          instrument = i;
          source_ts = p.source_ts;
          rx_ts = p.rx_ts;
          seq = p.seq;
          bid = p.a;
          bid_size = p.size0;
          ask = p.b;
          ask_size = p.size1;
        })))
    else if p.kind == bar_payload
    then with_instrument (resolve r p.symbol) p.symbol (λ i.
      with_known (tag_to_interval p.interval) (λ interval. decoded (
        bar (record {
          instrument = i;
          interval = interval;
          source_ts = p.source_ts;
          rx_ts = p.rx_ts;
          seq = p.seq;
          open_price = p.a;
          high = p.b;
          low = p.c;
          close_price = p.d;
          volume = p.size0;
        }))))
    else if p.kind == control_payload
    then control_from_pod p r
    else bad_discriminant
