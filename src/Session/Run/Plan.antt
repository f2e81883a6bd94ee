-- ===== src/Session/Run/Plan.antt =====
-- What the plan of a request is meant to deliver, said without the controller.
use datamancer.Base.{
  ◌≡◌, refl, subst, Bool, true, false, ◌&&◌, ◌||◌, Option, none, some, String, List, [], ◌∷◌, ◌++◌,
  if◌then◌else◌, bind-some, ◌>>=◌,
}
use datamancer.Base.Int.{ltb_ℤ, max_ℤ}
use datamancer.Core.Event.{
  Timestamp, MarketEvent, trade, quote, bar, control, Control, gap, provider_error, data_source_ts,
}
use datamancer.Core.Request.{HistoryRequest, CacheKey}
use datamancer.Channel.{Channel}
use datamancer.Provider.Accounting.{record_error}
use datamancer.Session.Options.{PersistenceOptions}
use datamancer.Session.Tile.{Segment, covered, confirmed_prefix_end}
use datamancer.Session.Tile
use datamancer.Session.Controller.{Controller, emit_gap, emit_provider_error}
use datamancer.Session.Run.{StoreCall, Poll, World, max_option}
use datamancer.Session.Run.Segments.{edge_or, is_edge, report_failure}
use datamancer.Session.Run.Trace.{
  Identity, identity, Evolves, Evolves-trans, quiet, forward-Evolves,
}
use datamancer.Session.Run.Rounds.{items}

abbrev pub key_at : Identity → Timestamp → Timestamp → CacheKey
key_at i f t = record {
  instrument = i.instrument;
  kind = i.kind;
  from = f;
  to = t;
  adjustment = i.adjustment;
}

abbrev pub request_at : Identity → Timestamp → Timestamp → HistoryRequest
request_at i f t = record {
  instrument = i.instrument;
  kind = i.kind;
  from = f;
  to = t;
  adjustment = i.adjustment;
}

abbrev pub gap_control : Identity → Timestamp → Timestamp → Control
gap_control i f t = record {
  source_ts = f;
  rx_ts = f;
  seq = 0;
  kind = gap i.provider_id i.instrument (record { from_source_ts = f; to_source_ts = t });
}

abbrev pub error_control : Identity → Timestamp → String → Control
error_control i ts message = record {
  source_ts = ts;
  rx_ts = ts;
  seq = 0;
  kind = provider_error i.provider_id message;
}

-- After a failed fetch: the gap that is left, if any, and the error.
abbrev pub failure_events : Identity → Timestamp → Timestamp → String → List MarketEvent
failure_events i confirmed_to gap_to message =
    (if ltb_ℤ confirmed_to gap_to then control (gap_control i confirmed_to gap_to) ∷ [] else [])
    ++ (control (error_control i confirmed_to message) ∷ [])

-- The time of the latest trade, quote or bar among some events.
abbrev with_time : MarketEvent → List Timestamp → List Timestamp
with_time (trade t) rest = t.source_ts ∷ rest
with_time (quote q) rest = q.source_ts ∷ rest
with_time (bar b) rest = b.source_ts ∷ rest
with_time (control c) rest = rest

abbrev data_times : List MarketEvent → List Timestamp
data_times [] = []
data_times (ev ∷ evs) = with_time ev (data_times evs)

abbrev greatest_from : Timestamp → List Timestamp → Timestamp
greatest_from t [] = t
greatest_from t (x ∷ xs) = greatest_from (max_ℤ t x) xs

abbrev greatest : List Timestamp → Option Timestamp
greatest [] = none
greatest (x ∷ xs) = some (greatest_from x xs)

abbrev pub latest_data : List MarketEvent → Option Timestamp
latest_data evs = greatest (data_times evs)

-- The same, where `before` was the latest so far.
abbrev pub latest_after : Option Timestamp → List MarketEvent → Option Timestamp
latest_after none evs = latest_data evs
latest_after (some t) evs = some (greatest_from t (data_times evs))

pub latest_after-max_option :
    (before : Option Timestamp) (ev : MarketEvent) (evs : List MarketEvent)
    → latest_after (max_option before (data_source_ts ev)) evs ≡ latest_after before (ev ∷ evs)
latest_after-max_option none (trade t) evs = refl
latest_after-max_option none (quote q) evs = refl
latest_after-max_option none (bar b) evs = refl
latest_after-max_option none (control c) evs = refl
latest_after-max_option (some a) (trade t) evs = refl
latest_after-max_option (some a) (quote q) evs = refl
latest_after-max_option (some a) (bar b) evs = refl
latest_after-max_option (some a) (control c) evs = refl

module _ (ch : Channel) (w : World ch) (i : Identity) (edge : Option Timestamp) where
  -- The polls of the stream behind a segment.
  abbrev pub opened : Option (List (Poll ch)) → List (Poll ch)
  opened none = []
  opened (some ps) = ps

  abbrev pub segment_polls : Segment → List (Poll ch)
  segment_polls (covered f t) = if i.has_cache then opened (w.open_replay (key_at i f t)) else []
  segment_polls (Tile.gap f t) = (w.fetch_history (request_at i f t)).0

  -- How far a fetch has shown its range, by the latest trade, quote or bar among its items.
  abbrev pub fetched_to : Timestamp → Timestamp → Timestamp
  fetched_to f t =
      confirmed_prefix_end (latest_data (items ch (w.fetch_history (request_at i f t)).0)) f t

  abbrev replayed_events : Timestamp → Timestamp → Option (List (Poll ch)) → List MarketEvent
  replayed_events f t none = control (gap_control i f t) ∷ []
  replayed_events f t (some ps) = items ch ps

  abbrev pub error_events : Timestamp → Timestamp → Option String → List MarketEvent
  error_events f t none = []
  error_events f t (some message) = failure_events i (fetched_to f t) (edge_or edge t) message

  -- A cached segment is replayed, or is a gap where that fails; any other is fetched.
  abbrev pub segment_events : Segment → List MarketEvent
  segment_events (covered f t) =
      if i.has_cache
      then replayed_events f t (w.open_replay (key_at i f t))
      else control (gap_control i f t) ∷ []
  segment_events (Tile.gap f t) =
      items ch (w.fetch_history (request_at i f t)).0
      ++ error_events f t (w.fetch_history (request_at i f t)).1

  abbrev is_error : Option String → Bool
  is_error none = false
  is_error (some message) = true

  abbrev pub fails : Segment → Bool
  fails (covered f t) = false
  fails (Tile.gap f t) = is_error (w.fetch_history (request_at i f t)).1

  -- How far the coverage claim of a fetched segment reaches: all of it, but only as far as the data
  -- shows if the fetch failed or ran up to the live edge.
  abbrev pub claimed_to : Timestamp → Timestamp → Timestamp
  claimed_to f t =
      if is_error (w.fetch_history (request_at i f t)).1 || is_edge edge t
      then fetched_to f t
      else t

  -- What a segment stores, with its items as they came, where the cache is written.
  abbrev pub segment_stores : PersistenceOptions → Segment → List StoreCall
  segment_stores options (covered f t) = []
  segment_stores options (Tile.gap f t) =
      if options.write_cache && i.has_cache
      then record {
        key = key_at i f (claimed_to f t);
        batch = items ch (w.fetch_history (request_at i f t)).0;
      }
        ∷ []
      else []

  unfoldable pub plan_stores : PersistenceOptions → List Segment → List StoreCall
  plan_stores options [] = []
  plan_stores options (seg ∷ segs) = segment_stores options seg ++ plan_stores options segs

  -- The segments up to the first that fails, with it.
  unfoldable pub attempted : List Segment → List Segment
  attempted [] = []
  attempted (seg ∷ segs) = let rest = attempted segs in seg ∷ (if fails seg then [] else rest)

  unfoldable pub plan_events : List Segment → List MarketEvent
  plan_events [] = []
  plan_events (seg ∷ segs) = segment_events seg ++ plan_events segs

  unfoldable pub plan_polls : List Segment → List (Poll ch)
  plan_polls [] = []
  plan_polls (seg ∷ segs) = segment_polls seg ++ plan_polls segs

module _ (ch : Channel) where
  pub emit_gap-Evolves :
      (c c' : Controller ch) (f t : Timestamp)
      → emit_gap ch c f f t ≡ some c'
      → Evolves ch c c' (control (gap_control (identity ch c) f t) ∷ [])
  unfolding emit_gap
  emit_gap-Evolves c c' f t e = forward-Evolves ch c c' (gap_control (identity ch c) f t) e

  pub emit_provider_error-Evolves :
      (c c' : Controller ch) (ts : Timestamp) (message : String)
      → emit_provider_error ch c ts message ≡ some c'
      → Evolves ch c c' (control (error_control (identity ch c) ts message) ∷ [])
  unfolding emit_provider_error record_error
  emit_provider_error-Evolves c c' ts message e =
      let c0 = record c { accounting = record_error c.accounting message } in
      let k = error_control (identity ch c) ts message in
      Evolves-trans ch c c0 c' [] (control k ∷ []) (quiet ch c c0 refl refl refl refl refl refl)
        (forward-Evolves ch c0 c' k e)

  pub report_failure-Evolves :
      (c c' : Controller ch) (confirmed_to gap_to : Timestamp) (message : String)
      → report_failure ch c confirmed_to gap_to message ≡ some c'
      → Evolves ch c c' (failure_events (identity ch c) confirmed_to gap_to message)
  unfolding report_failure
  report_failure-Evolves c c' confirmed_to gap_to message e = go (ltb_ℤ confirmed_to gap_to) e
    where
      go :
          (b : Bool)
          → ((if b then emit_gap ch c confirmed_to confirmed_to gap_to else some c)
              >>= (λ d. emit_provider_error ch d confirmed_to message))
            ≡ some c'
          → Evolves ch c c' (
              (if b then control (gap_control (identity ch c) confirmed_to gap_to) ∷ [] else [])
              ++ (control (error_control (identity ch c) confirmed_to message) ∷ []))
      go true e =
          let (d, gapped, rest) =
            bind-some (emit_gap ch c confirmed_to confirmed_to gap_to) _ c' e in
          let v = emit_gap-Evolves c d confirmed_to gap_to gapped in
          let after = emit_provider_error-Evolves d c' confirmed_to message rest in
          Evolves-trans ch c d c' _ _ v (
            subst (λ j. Evolves ch d c' (control (error_control j confirmed_to message) ∷ []))
              v.keeps after)
      go false e = emit_provider_error-Evolves c c' confirmed_to message e
