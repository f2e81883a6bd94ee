-- ===== src/Session/Run/Settle.antt =====
-- A fetched segment delivers and stores what its plan means to.
use datamancer.Base.{
  ◌≡◌, refl, sym, ap, ◌∙◌, subst, Bool, true, false, ◌&&◌, Option, none, some, String, List, [],
  ◌∷◌, ◌++◌, if◌then◌else◌, bind-some, triple-eq, append_nil,
}
use mathlib.Core.List.{append_assoc}
use datamancer.Core.Event.{Timestamp}
use datamancer.Channel.{Channel}
use datamancer.Session.Options.{PersistenceOptions}
use datamancer.Session.Tile.{Segment, covered, confirmed_prefix_end}
use datamancer.Session.Tile
use datamancer.Session.Run.{
  Poll, World, done, BackfillSide, StoreCall, Stream, Fetched, nothing_fetched, fetch_loop, gather,
  command, removal, arrival, item,
}
use datamancer.Session.Run.Segments.{
  Flow, edge_of, edge_or, store_to, report_failure, settle_fetch, count_fetch,
}
use datamancer.Session.Run.Trace.{Identity, identity, Evolves, Evolves-trans, quiet}
use datamancer.Session.Run.Rounds.{items}
use datamancer.Session.Run.Loops.{hear_all, gather_all, fetch_loop-Ran}
use datamancer.Session.Run.Delivery.{Streamed}
use datamancer.Session.Run.Plan.{
  key_at, request_at, fetched_to, failure_events, latest_after, latest_after-max_option,
  report_failure-Evolves,
}

gather_all-max_data_ts :
    (ch : Channel) (store : Bool) (x : Fetched) (ps : List (Poll ch))
    → (gather_all ch store x ps).max_data_ts ≡ latest_after x.max_data_ts (items ch ps)
gather_all-max_data_ts ch store x [] = go x.max_data_ts
  where
    go : (m : Option Timestamp) → m ≡ latest_after m []
    go none = refl
    go (some t) = refl
gather_all-max_data_ts ch store x (item ev ∷ ps) =
    gather_all-max_data_ts ch store (gather ch store x (item ev)) ps
    ∙ latest_after-max_option x.max_data_ts ev (items ch ps)
gather_all-max_data_ts ch store x (command cmd now ∷ ps) = gather_all-max_data_ts ch store x ps
gather_all-max_data_ts ch store x (removal r now ∷ ps) = gather_all-max_data_ts ch store x ps
gather_all-max_data_ts ch store x (arrival ev ∷ ps) = gather_all-max_data_ts ch store x ps

gather_all-batch :
    (ch : Channel) (x : Fetched) (ps : List (Poll ch))
    → (gather_all ch true x ps).batch ≡ x.batch ++ items ch ps
gather_all-batch ch x [] = sym (append_nil x.batch)
gather_all-batch ch x (item ev ∷ ps) =
    gather_all-batch ch (gather ch true x (item ev)) ps
    ∙ append_assoc x.batch (ev ∷ []) (items ch ps)
gather_all-batch ch x (command cmd now ∷ ps) = gather_all-batch ch x ps
gather_all-batch ch x (removal r now ∷ ps) = gather_all-batch ch x ps
gather_all-batch ch x (arrival ev ∷ ps) = gather_all-batch ch x ps

module _ (ch : Channel) (w : World ch) (options : PersistenceOptions) (s : Stream ch)
    (f t : Timestamp) where
  abbrev pub sent : List (Poll ch)
  sent = (w.fetch_history (request_at (identity ch s.controller) f t)).0

  abbrev pub writes : Bool
  writes = options.write_cache && s.controller.has_cache

  -- What the loop of a fetch leaves behind: all that came was delivered, and is in the batch.
  pub record Gathered (s1 : Stream ch) (got : Fetched) : Type 0 where
    evolved : Evolves ch s.controller s1.controller (items ch sent)
    side_after : s1.side ≡ hear_all ch s.side sent
    edge_after : edge_of s1.side ≡ edge_of s.side
    batch : writes ≡ true → got.batch ≡ items ch sent
    confirmed :
        confirmed_prefix_end got.max_data_ts f t
        ≡ fetched_to ch w (identity ch s.controller) (edge_of s.side) f t

  edge_of-hear_all :
      (side : Option BackfillSide) (ps : List (Poll ch))
      → edge_of (hear_all ch side ps) ≡ edge_of side
  edge_of-hear_all none ps = refl
  edge_of-hear_all (some side) ps = refl

  pub fetch_loop-Gathered :
      (s1 : Stream ch) (got : Fetched)
      → fetch_loop ch writes (count_fetch ch s) nothing_fetched sent ≡ some (s1, got, done)
      → Gathered s1 got
  fetch_loop-Gathered s1 got e =
      let (v, g) = fetch_loop-Ran ch writes (count_fetch ch s) nothing_fetched sent s1 got done e in
      let (told, side) = v.full refl in
      record {
        evolved = subst (Evolves ch s.controller s1.controller) told (
            Evolves-trans ch s.controller (count_fetch ch s).controller s1.controller [] v.emitted
              (quiet ch s.controller (count_fetch ch s).controller refl refl refl refl refl refl)
              v.evolves);
        side_after = side;
        edge_after = ap edge_of side ∙ edge_of-hear_all s.side sent;
        batch = λ b.
            ap (λ (x : Fetched). x.batch) (g refl)
            ∙ ap (λ d. (gather_all ch d nothing_fetched sent).batch) b
            ∙ gather_all-batch ch nothing_fetched sent;
        confirmed =
            ap (λ (x : Fetched). confirmed_prefix_end x.max_data_ts f t) (g refl)
            ∙ ap (λ m. confirmed_prefix_end m f t)
                (gather_all-max_data_ts ch writes nothing_fetched sent);
      }

  -- The claim and its batch, as the plan has them.
  stores_lem :
      (s1 : Stream ch) (got : Fetched) (claim claim' : Timestamp)
      → Gathered s1 got
      → claim ≡ claim'
      → store_to ch options s1.controller f claim got ≡ (
          if writes
          then record { key = key_at (identity ch s.controller) f claim'; batch = items ch sent }
            ∷ []
          else [])
  stores_lem s1 got claim claim' v e =
      let at = λ (i : Identity).
        if options.write_cache && i.has_cache
        then record { key = key_at i f claim; batch = got.batch } ∷ []
        else [] in
      ap at v.evolved.keeps ∙ go writes (λ b. v.batch b)
    where
      go :
          (b : Bool)
          → (b ≡ true → got.batch ≡ items ch sent)
          → ◌≡◌ {A = List StoreCall}
              (if b
                then record { key = key_at (identity ch s.controller) f claim; batch = got.batch }
                  ∷ []
                else [])
              (if b
                then record {
                  key = key_at (identity ch s.controller) f claim';
                  batch = items ch sent;
                }
                  ∷ []
                else [])
      go true h = rw (e, h refl)
      go false h = refl

  pub settle_fetch-Streamed :
      (s1 s' : Stream ch) (flow : Flow) (stores : List StoreCall) (got : Fetched)
      (error : Option String)
      → (w.fetch_history (request_at (identity ch s.controller) f t)).1 ≡ error
      → Gathered s1 got
      → settle_fetch ch options s1 got f t error ≡ some (s', stores, flow)
      → Streamed ch w options s s' (Tile.gap f t) stores flow
  unfolding settle_fetch
  settle_fetch-Streamed s1 s' flow stores got none h v e =
      let (same, st, fl) = triple-eq e in
      record {
        emitted = items ch sent;
        evolves =
            subst (λ (x : Stream ch). Evolves ch s.controller x.controller (items ch sent)) same
              v.evolved;
        full = λ r. (
          rw h (sym fl),
          rw h (sym (append_nil (items ch sent))),
          sym (ap (λ (x : Stream ch). x.side) same) ∙ v.side_after,
          sym st ∙ stores_lem s1 got _ _ v (rw (h, v.edge_after, v.confirmed)),
        );
      }
  settle_fetch-Streamed s1 s' flow stores got (some message) h v e =
      let i = identity ch s.controller in
      let edge = edge_of s.side in
      let confirmed_to = confirmed_prefix_end got.max_data_ts f t in
      let gap_to = edge_or (edge_of s1.side) t in
      let (c, reported, rest) =
        bind-some (report_failure ch s1.controller confirmed_to gap_to message) _ (s', stores, flow)
          e in
      let (same, st, fl) = triple-eq rest in
      let told =
        items ch sent ++ failure_events i (fetched_to ch w i edge f t) (edge_or edge t) message in
      let as_planned : failure_events (identity ch s1.controller) confirmed_to gap_to message
          ≡ failure_events i (fetched_to ch w i edge f t) (edge_or edge t) message =
        ap (λ j. failure_events j confirmed_to gap_to message) v.evolved.keeps
        ∙ ap (λ x. failure_events i x gap_to message) v.confirmed
        ∙ ap (λ x. failure_events i (fetched_to ch w i edge f t) (edge_or x t) message)
            v.edge_after in
      let failed = report_failure-Evolves ch s1.controller c confirmed_to gap_to message reported in
      let whole =
        Evolves-trans ch s.controller s1.controller c (items ch sent) _ v.evolved
          (subst (Evolves ch s1.controller c) as_planned failed) in
      record {
        emitted = told;
        evolves = subst (λ (x : Stream ch). Evolves ch s.controller x.controller told) same whole;
        full = λ r. (
          rw h (sym fl),
          rw h,
          sym (ap (λ (x : Stream ch). x.side) same) ∙ v.side_after,
          sym st ∙ stores_lem s1 got _ _ v (rw (h, v.confirmed)),
        );
      }
