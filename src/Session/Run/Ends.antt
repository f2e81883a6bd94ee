-- ===== src/Session/Run/Ends.antt =====
-- That a planned request comes to an end, given room for its sequence numbers.
use datamancer.Base.{
  ◌≡◌, refl, ap, ℕ, ◌+◌, ◌≤◌, ◌<◌, Bool, true, false, Option, none, some, List, [], ◌∷◌, arith,
  ◌>>=◌, if◌then◌else◌, length, String, ◌&&◌, ◌++◌,
}
use datamancer.Base.Int.{ltb_ℤ}
use datamancer.Core.Event.{Timestamp, seq_max, control}
use datamancer.Channel.{Channel}
use datamancer.Provider.Accounting.{record_error}
use datamancer.Session.Options.{PersistenceOptions}
use datamancer.Session.Tile.{Segment, covered, confirmed_prefix_end}
use datamancer.Session.Tile
use datamancer.Session.Controller.{Controller, live_arrival, emit_gap, emit_provider_error, forward}
use datamancer.Session.Lifecycle.Room.{forwards}
use datamancer.Session.Run.{
  Poll, Stream, World, SegmentOutcome, done, closed, StoreCall, key_of, request_of, Fetched,
  nothing_fetched,
}
use datamancer.Session.Run.Segments.{
  Flow, continues, breaks, returns, flow_of, gap_over, replay_opened, covered_segment, edge_of,
  edge_or, store_to, claim_end, report_failure, settle_fetch, fetch_ended, count_fetch, gap_segment,
  one_segment, stream_segments,
}
use datamancer.Session.Run.Trace.{Identity, identity}
use datamancer.Session.Run.Plan.{opened, segment_polls, gap_control, error_control}
use datamancer.Session.Run.Room.{replay_loop-ends, fetch_loop-ends}
use datamancer.Session.Run.Whole.{one_segment-Streamed}

module _ (ch : Channel) where
  gap_over-ends :
      (s : Stream ch) (f t : Timestamp)
      → s.controller.next_seq + 1 < seq_max
      → (s' : Stream ch) × (flow : Flow) × (gap_over ch s f t ≡ some (s', flow))
        × (s'.controller.next_seq ≤ s.controller.next_seq + 1)
  unfolding gap_over emit_gap forward
  gap_over-ends s f t room =
      let (c, e, n) =
        forwards ch s.controller (control (gap_control (identity ch s.controller) f t)) live_arrival
          room in
      (record s { controller = c }, continues, rw e refl, omega (arith, n))

  report_failure-ends :
      (c : Controller ch) (confirmed gap_to : Timestamp) (message : String)
      → c.next_seq + 2 < seq_max
      → (c' : Controller ch) × (report_failure ch c confirmed gap_to message ≡ some c')
        × (c'.next_seq ≤ c.next_seq + 2)
  unfolding report_failure emit_gap emit_provider_error forward
  report_failure-ends c confirmed gap_to message room = go (ltb_ℤ confirmed gap_to)
    where
      told :
          (d : Controller ch)
          → d.next_seq ≤ c.next_seq + 1
          → (c' : Controller ch) × (emit_provider_error ch d confirmed message ≡ some c')
            × (c'.next_seq ≤ c.next_seq + 2)
      told d m =
          let (c', e, n) =
            forwards ch (record d { accounting = record_error d.accounting message })
              (control (error_control (identity ch d) confirmed message)) live_arrival
              (omega arith) in
          (c', e, omega (arith, n))

      go :
          (b : Bool)
          → (c' : Controller ch) × ◌≡◌ {A = Option (Controller ch)}
              (do
                c' ← if b then emit_gap ch c confirmed confirmed gap_to else some c
                emit_provider_error ch c' confirmed message)
              (some c')
            × (c'.next_seq ≤ c.next_seq + 2)
      go true =
          let (d, e, n) =
            forwards ch c (control (gap_control (identity ch c) confirmed gap_to)) live_arrival
              (omega arith) in
          let (c', f, m) = told d (omega (arith, n)) in (c', rw (e, f) refl, m)
      go false = told c (omega arith)

module _ (ch : Channel) (w : World ch) (options : PersistenceOptions) where
  -- The most sequence numbers that a segment takes: one for each round, and two for a failure.
  abbrev pub segment_room : Identity → Segment → ℕ
  segment_room i seg = length (segment_polls ch w i none seg) + 2

  abbrev pub plan_room : Identity → List Segment → ℕ
  plan_room i [] = 0
  plan_room i (seg ∷ segs) = segment_room i seg + plan_room i segs

  abbrev behind : Stream ch → Option (List (Poll ch)) → List (Poll ch)
  behind s found = opened ch w (identity ch s.controller) none found

  replay_opened-ends :
      (s : Stream ch) (f t : Timestamp) (found : Option (List (Poll ch)))
      → s.controller.next_seq + length (behind s found) + 1 < seq_max
      → (s' : Stream ch) × (flow : Flow) × (replay_opened ch s f t found ≡ some (s', flow))
        × (s'.controller.next_seq ≤ s.controller.next_seq + length (behind s found) + 1)
  unfolding replay_opened
  replay_opened-ends s f t none room =
      let (s', flow, e, n) = gap_over-ends ch s f t (omega arith) in (s', flow, e, omega (arith, n))
  replay_opened-ends s f t (some ps) room =
      let (s', o, e, n) = replay_loop-ends ch s ps (omega arith) in
      (s', flow_of o, rw e refl, omega (arith, n))

  covered_segment-ends :
      (s : Stream ch) (f t : Timestamp)
      → s.controller.next_seq + segment_room (identity ch s.controller) (covered f t) < seq_max
      → (s' : Stream ch) × (flow : Flow) × (covered_segment ch w s f t ≡ some (s', flow))
        × (s'.controller.next_seq
            ≤ s.controller.next_seq + segment_room (identity ch s.controller) (covered f t))
  unfolding covered_segment
  covered_segment-ends s f t room =
      go s.controller.has_cache (w.open_replay (key_of ch s.controller f t)) room
    where
      go :
          (b : Bool) (found : Option (List (Poll ch)))
          → s.controller.next_seq + (length (if b then behind s found else []) + 2) < seq_max
          → (s' : Stream ch) × (flow : Flow) × ((if b
                then replay_opened ch s f t found
                else gap_over ch s f t)
              ≡ some (s', flow))
            × (s'.controller.next_seq
                ≤ s.controller.next_seq + (length (if b then behind s found else []) + 2))
      go true found room =
          let (s', flow, e, n) = replay_opened-ends s f t found (omega arith) in
          (s', flow, e, omega (arith, n))
      go false found room =
          let (s', flow, e, n) = gap_over-ends ch s f t (omega arith) in
          (s', flow, e, omega (arith, n))

  fetch_ended-ends :
      (s : Stream ch) (got : Fetched) (o : SegmentOutcome) (f t : Timestamp) (error : Option String)
      → s.controller.next_seq + 2 < seq_max
      → (s' : Stream ch) × (stores : List StoreCall) × (flow : Flow) × (fetch_ended ch options f t
            error
            (s, got, o)
          ≡ some (s', stores, flow))
        × (s'.controller.next_seq ≤ s.controller.next_seq + 2)
  unfolding fetch_ended settle_fetch
  fetch_ended-ends s got closed f t error room = (s, [], returns, refl, omega arith)
  fetch_ended-ends s got done f t none room = (
    s,
    store_to ch options s.controller f (claim_end (edge_of s.side) got f t) got,
    continues,
    refl,
    omega arith,
  )
  fetch_ended-ends s got done f t (some message) room =
      let confirmed_to = confirmed_prefix_end got.max_data_ts f t in
      let (c, e, n) =
        report_failure-ends ch s.controller confirmed_to (edge_or (edge_of s.side) t) message
          room in
      (
        record s { controller = c },
        store_to ch options s.controller f confirmed_to got,
        breaks,
        rw e refl,
        n,
      )

  one_segment-ends :
      (s : Stream ch) (seg : Segment)
      → s.controller.next_seq + segment_room (identity ch s.controller) seg < seq_max
      → (s' : Stream ch) × (stores : List StoreCall) × (flow : Flow) × (one_segment ch w options s
            seg
          ≡ some (s', stores, flow))
        × (s'.controller.next_seq
            ≤ s.controller.next_seq + segment_room (identity ch s.controller) seg)
  unfolding one_segment gap_segment
  one_segment-ends s (covered f t) room =
      let (s', flow, e, n) = covered_segment-ends s f t room in (s', [], flow, rw e refl, n)
  one_segment-ends s (Tile.gap f t) room =
      let (polls, error) = w.fetch_history (request_of ch s.controller f t) in
      let (s1, got, o, e, n) =
        fetch_loop-ends ch (options.write_cache && s.controller.has_cache) (count_fetch ch s)
          nothing_fetched polls (omega arith) in
      let (s', stores, flow, e', n') = fetch_ended-ends s1 got o f t error (omega (arith, n)) in
      (s', stores, flow, rw (e, e') refl, omega (arith, n, n'))

  -- A planned request that came to an end, and the numbers it has taken at most.
  abbrev pub Finishes : ℕ → Option (Stream ch × List StoreCall × SegmentOutcome) → Type 0
  Finishes n result =
      (s : Stream ch) × (stores : List StoreCall) × (o : SegmentOutcome) × (result
        ≡ some (s, stores, o))
      × (s.controller.next_seq ≤ n)

  -- A planned request does not panic and comes to an end, whatever the rounds of its streams are,
  -- commands and removals among them, and whichever fetches fail, as long as the counter has room for
  -- one number in each round and two after each segment.
  pub stream_segments-Finishes :
      (s : Stream ch) (segs : List Segment)
      → s.controller.next_seq + plan_room (identity ch s.controller) segs < seq_max
      → Finishes
          (s.controller.next_seq + plan_room (identity ch s.controller) segs)
          (stream_segments ch w options s segs)
  unfolding stream_segments
  stream_segments-Finishes s [] room = (s, [], done, refl, omega arith)
  stream_segments-Finishes s (seg ∷ segs) room =
      let (s1, stores, flow, e, n) = one_segment-ends s seg (omega arith) in
      let same = (one_segment-Streamed ch w options s s1 seg stores flow e).evolves.keeps in
      let left = ap (λ i. plan_room i segs) same in
      let (s', more, o, f, m) = stream_segments-Finishes s1 segs (omega (arith, n, left)) in
      go s1 stores flow e n s' more o f (omega (arith, n, left, m))
    where
      go :
          (s1 : Stream ch) (stores : List StoreCall) (flow : Flow)
          → one_segment ch w options s seg ≡ some (s1, stores, flow)
          → s1.controller.next_seq
            ≤ s.controller.next_seq + segment_room (identity ch s.controller) seg
          → (s' : Stream ch) (more : List StoreCall) (o : SegmentOutcome)
          → stream_segments ch w options s1 segs ≡ some (s', more, o)
          → s'.controller.next_seq
            ≤ s.controller.next_seq + plan_room (identity ch s.controller) (seg ∷ segs)
          → Finishes
              (s.controller.next_seq + plan_room (identity ch s.controller) (seg ∷ segs))
              (stream_segments ch w options s (seg ∷ segs))
      go s1 stores continues e n s' more o f m = (s', stores ++ more, o, rw (e, f) refl, m)
      go s1 stores breaks e n s' more o f m = (s1, stores, done, rw e refl, omega arith)
      go s1 stores returns e n s' more o f m = (s1, stores, closed, rw e refl, omega arith)
