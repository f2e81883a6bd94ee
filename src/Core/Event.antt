-- ===== src/Core/Event.antt =====
-- crates/datamancer-core/src/event.rs: the event model. `Seq` (u64) and `Timestamp` (i64
-- nanoseconds) are the numbers they wrap; the ranges are kept by the operations that compute them.
-- Prices and quantities ride along unread and are raw units.
use datamancer.Base.{
  ℕ, ◌≡◌, Bool, true, false, List, [], ◌∷◌, ◌++◌, map, Option, none, some, String, ℤ, pos,
}
use datamancer.Base.{if◌then◌else◌, ◌↔◌, arith, Eq}
use datamancer.Base.Int.{◌+ℤ◌, ltb_ℤ}
use datamancer.Core.Instrument.{Instrument}

abbrev pub Seq : Type 0
Seq = ℕ

abbrev pub Timestamp : Type 0
Timestamp = ℤ

abbrev pub seq_max : ℕ
seq_max = 18446744073709551615

-- `Seq::SYNTHETIC`, u64::MAX
abbrev pub synthetic : Seq
synthetic = seq_max

abbrev pub i64_max : ℤ
i64_max = pos 9223372036854775807

-- i64 `saturating_add(1)`, for a value in range.
abbrev pub next_ts : Timestamp → Timestamp
next_ts t = if ltb_ℤ t i64_max then t +ℤ pos 1 else i64_max

pub data BarInterval : Type 0 where
  one_second one_minute five_minute fifteen_minute one_hour one_day : BarInterval

-- `BarInterval::ALL`
all_intervals : List BarInterval
all_intervals = one_second ∷ one_minute ∷ five_minute ∷ fifteen_minute ∷ one_hour ∷ one_day ∷ []

pub data EventKind : Type 0 where
  trade_kind quote_kind : EventKind
  bar_kind : BarInterval → EventKind

-- `EventKind::enumerate`
unfoldable pub enumerate : List EventKind
unfolding all_intervals
enumerate = (trade_kind ∷ quote_kind ∷ []) ++ map bar_kind all_intervals

pub data Surface : Type 0 where
  live history : Surface

pub record GapSpan : Type 0 where
  pub from_source_ts : Timestamp
  pub to_source_ts : Timestamp

pub record Trade : Type 0 where
  pub instrument : Instrument
  pub source_ts : Timestamp
  pub rx_ts : Timestamp
  pub seq : Seq
  pub price : ℤ
  pub size : ℕ

pub record Quote : Type 0 where
  pub instrument : Instrument
  pub source_ts : Timestamp
  pub rx_ts : Timestamp
  pub seq : Seq
  pub bid : ℤ
  pub bid_size : ℕ
  pub ask : ℤ
  pub ask_size : ℕ

pub record Bar : Type 0 where
  pub instrument : Instrument
  pub interval : BarInterval
  pub source_ts : Timestamp
  pub rx_ts : Timestamp
  pub seq : Seq
  pub open_price : ℤ
  pub high : ℤ
  pub low : ℤ
  pub close_price : ℤ
  pub volume : ℕ

pub data DisconnectCause : Type 0 where
  error unauthenticated companion_unreachable disabled : DisconnectCause

pub data ControlKind : Type 0 where
  provider_connected : (provider : String) → ControlKind
  provider_disconnected : (provider reason : String) → (cause : DisconnectCause) → ControlKind
  subscription_changed :
      (provider : String)
      → (instrument : Instrument) → (kind : EventKind) → (active : Bool) → ControlKind
  gap : (provider : String) → (instrument : Instrument) → (span : GapSpan) → ControlKind
  provider_error : (provider message : String) → ControlKind
  session_closing : ControlKind

pub record Control : Type 0 where
  pub source_ts : Timestamp
  pub rx_ts : Timestamp
  pub seq : Seq
  pub kind : ControlKind

pub data MarketEvent : Type 0 where
  trade : Trade → MarketEvent
  quote : Quote → MarketEvent
  bar : Bar → MarketEvent
  control : Control → MarketEvent

-- `MarketEvent::seq`
abbrev pub event_seq : MarketEvent → Option Seq
event_seq (trade t) = some t.seq
event_seq (quote q) = some q.seq
event_seq (bar b) = some b.seq
event_seq (control c) = some c.seq

-- `matches!(ev, Trade(_) | Quote(_) | Bar(_))`
abbrev pub is_data : MarketEvent → Bool
is_data (control c) = false
is_data _ = true

-- `data_source_ts`, `data_rx_ts` and `data_instrument`
abbrev pub data_source_ts : MarketEvent → Option Timestamp
data_source_ts (trade t) = some t.source_ts
data_source_ts (quote q) = some q.source_ts
data_source_ts (bar b) = some b.source_ts
data_source_ts (control c) = none

abbrev pub data_rx_ts : MarketEvent → Option Timestamp
data_rx_ts (trade t) = some t.rx_ts
data_rx_ts (quote q) = some q.rx_ts
data_rx_ts (bar b) = some b.rx_ts
data_rx_ts (control c) = none

abbrev pub data_instrument : MarketEvent → Option Instrument
data_instrument (trade t) = some t.instrument
data_instrument (quote q) = some q.instrument
data_instrument (bar b) = some b.instrument
data_instrument (control c) = none

-- `stamp_seq`: overwrite the sequence number, and nothing else.
abbrev pub stamp_seq : MarketEvent → Seq → MarketEvent
stamp_seq (trade t) s = trade (record t { seq = s })
stamp_seq (quote q) s = quote (record q { seq = s })
stamp_seq (bar b) s = bar (record b { seq = s })
stamp_seq (control c) s = control (record c { seq = s })

-- The derived `PartialEq` of bar intervals and event kinds.
abbrev interval_beq : BarInterval → BarInterval → Bool
interval_beq one_second one_second = true
interval_beq one_minute one_minute = true
interval_beq five_minute five_minute = true
interval_beq fifteen_minute fifteen_minute = true
interval_beq one_hour one_hour = true
interval_beq one_day one_day = true
interval_beq _ _ = false

abbrev kind_beq : EventKind → EventKind → Bool
kind_beq trade_kind trade_kind = true
kind_beq quote_kind quote_kind = true
kind_beq (bar_kind i) (bar_kind j) = interval_beq i j
kind_beq _ _ = false

interval_beq_sound : (i j : BarInterval) → interval_beq i j ≡ true → i ≡ j
interval_beq_sound i j h = ground arith

kind_beq_sound : (a b : EventKind) → kind_beq a b ≡ true → a ≡ b
kind_beq_sound a b h = ground arith

kind_beq_refl : (a b : EventKind) → a ≡ b → kind_beq a b ≡ true
kind_beq_refl a b h = ground arith

pub kind_beq_iff : (a b : EventKind) → (kind_beq a b ≡ true) ↔ (a ≡ b)
kind_beq_iff a b = (kind_beq_sound a b, kind_beq_refl a b)

instance abbrev pub kind_eq : Eq EventKind
kind_eq = record { beq = kind_beq; beq_iff = kind_beq_iff }
