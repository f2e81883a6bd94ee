-- ===== src/Session/Historical/Trace.antt =====
-- A historical session from its start to its end: what it numbers and delivers.
use datamancer.Base.{
  ◌≡◌, ◌&&◌, refl, sym, ap, ◌∙◌, subst, Bool, true, false, not, Option, none, some, List, [], ◌∷◌,
  ◌++◌, if◌then◌else◌, bind-some, pair-eq, some-eq, ◌>>=◌, leb, Bool-cases, inl, inr, ◌+◌, arith,
}
use datamancer.Core.Event.{Timestamp, MarketEvent, seq_max, stamp_seq, is_data}
use datamancer.Channel.{Channel}
use datamancer.Provider.Accounting.{ProviderAccounting, record_forwarded}
use datamancer.Session.Options.{historical}
use datamancer.Session.Controller.{
  Controller, Sink, attached, detached, emit, forward, forward_with, stamp, after_stamp, tee,
  is_live_scope, deliver_with, has_fanout, live_arrival,
}
use datamancer.Session.Lifecycle.{SessionCommand, handle_command, shutdown}
use datamancer.Session.Run.Trace.{
  Identity, Evolves, Evolves-trans, Evolves_self, quiet, deliver-Evolves, emit-Evolves,
}
use datamancer.Session.Run.Rounds.{handle_command-Evolves, closing}
use datamancer.Session.Historical.{
  command, DrainPoll, stream_closed, drain_loop, drain, finish_historical,
}

module _ (ch : Channel) where
  if_either :
      (a b : Bool) (x y : Controller ch) → b ≡ true → (if a then x else if b then x else y) ≡ x
  if_either true b x y h = refl
  if_either false true x y h = refl
  if_either false false x y h = cc

  tee_historical :
      (c : Controller ch) (ev : MarketEvent) (f t : Timestamp)
      → c.scope ≡ historical f t
      → tee ch c ev ≡ c
  unfolding tee
  tee_historical c ev f t h =
      if_either (not (is_data ev)) (not (is_live_scope c.scope)) c _
        (ap (λ s. not (is_live_scope s)) h)

  record_forwarded-unsubscribes :
      (a : ProviderAccounting) (ev : MarketEvent) (b : Bool)
      → (record_forwarded a ev b).unsubscribes ≡ a.unsubscribes
  record_forwarded-unsubscribes a ev b = ground arith

  -- In a historical scope nothing is teed.
  pub forward-Evolves :
      (c c' : Controller ch) (ev : MarketEvent) (f t : Timestamp)
      → c.scope ≡ historical f t
      → forward ch c ev ≡ some c'
      → Evolves ch c c' (ev ∷ [])
  unfolding forward forward_with stamp after_stamp
  forward-Evolves c c' ev f t h e = elim (Bool-cases (leb seq_max (c.next_seq + 1))) [
    | inl full ↦ let stuck : none ≡ some c' = rw full at e in cc
    | inr room ↦
        let stamped = stamp_seq ev c.next_seq in
        let c0 = record c {
          data_forwarded = if is_data stamped then true else c.data_forwarded;
          accounting = record_forwarded c.accounting stamped (has_fanout c.fanout && true);
        } in
        let c1 = record c0 { next_seq = c.next_seq + 1 } in
        let done : some (deliver_with ch (tee ch c1 stamped) stamped live_arrival) ≡ some c' =
          rw room at e in
        let same : Evolves ch c (deliver_with ch c1 stamped live_arrival) (ev ∷ []) =
          Evolves-trans ch c c0 (deliver_with ch c1 stamped live_arrival) [] (ev ∷ [])
            (quiet ch c c0 refl refl refl refl refl
              (record_forwarded-unsubscribes c.accounting stamped (has_fanout c.fanout && true)))
            (deliver-Evolves ch c0 ev live_arrival) in
        subst (λ d. Evolves ch c d (ev ∷ [])) (some-eq done)
          (subst (λ d. Evolves ch c (deliver_with ch d stamped live_arrival) (ev ∷ []))
            (sym (tee_historical c1 stamped f t h)) same)
  ]

  -- Some events were delivered.
  abbrev pub Delivers : Controller ch → Controller ch → Type 0
  Delivers c c' = (evs : List MarketEvent) × Evolves ch c c' evs

  pub Delivers-trans : (c d e : Controller ch) → Delivers c d → Delivers d e → Delivers c e
  Delivers-trans c d e (a, v) (b, w) = (a ++ b, Evolves-trans ch c d e a b v w)

  pub Delivers-scope :
      (c d : Controller ch) (f t : Timestamp)
      → Delivers c d
      → c.scope ≡ historical f t
      → d.scope ≡ historical f t
  Delivers-scope c d f t (a, v) h = ap (λ (i : Identity). i.scope) v.keeps ∙ h

  pub Delivers-self : (c d : Controller ch) → c ≡ d → Delivers c d
  Delivers-self c d e = subst (Delivers c) e ([], Evolves_self ch c)

  pub command-Delivers :
      (c d : Controller ch) (cmd : Option (SessionCommand ch)) (now : Timestamp) (on : Bool)
      → handle_command ch c cmd now ≡ some (d, on)
      → Delivers c d
  command-Delivers c d cmd now on e =
      let (evs, v, q) = handle_command-Evolves ch c d cmd now on e in (evs, v)

  shutdown-Delivers :
      (c d : Controller ch) (now : Timestamp) (on : Bool)
      → ◌>>=◌ {B = Controller ch × Bool} (shutdown ch c now) (λ x. some (x, true)) ≡ some (d, on)
      → Delivers c d
  unfolding shutdown
  shutdown-Delivers c d now on e =
      let (x, shut, rest) = bind-some (shutdown ch c now) _ (d, on) e in
      subst (Delivers c) (pair-eq rest).0
        (closing ch now ∷ [], emit-Evolves ch c x (closing ch now) shut)

  drain_loop-Delivers :
      (c d : Controller ch) (ps : List (DrainPoll ch)) (on : Bool)
      → drain_loop ch c ps ≡ some (d, on)
      → Delivers c d
  unfolding drain_loop
  drain_loop-Delivers c d [] on e = Delivers-self c d (pair-eq e).0
  drain_loop-Delivers c d (command cmd now ∷ ps) on e =
      let ((x, goes), ran, rest) = bind-some (handle_command ch c cmd now) _ (d, on) e in
      Delivers-trans c x d (command-Delivers c x cmd now goes ran)
        (go x goes (λ r. drain_loop-Delivers x d ps on r) rest)
    where
      go :
          (x : Controller ch) (goes : Bool)
          → (drain_loop ch x ps ≡ some (d, on) → Delivers x d)
          → ◌≡◌ {A = Option (Controller ch × Bool)}
              (elim goes [ true ↦ drain_loop ch x ps | false ↦ some (x, true) ])
              (some (d, on))
          → Delivers x d
      go x true later r = later r
      go x false later r = Delivers-self x d (pair-eq r).0
  drain_loop-Delivers c d (stream_closed now ∷ ps) on e = shutdown-Delivers c d now on e

  drain-Delivers :
      (c d : Controller ch) (sink : Sink ch) (now : Timestamp) (ps : List (DrainPoll ch))
      (on : Bool)
      → drain ch c sink now ps ≡ some (d, on)
      → Delivers c d
  unfolding drain
  drain-Delivers c d (attached tx) now ps on e = go (ch.is_closed tx) e
    where
      go :
          (b : Bool)
          → (if b
              then ◌>>=◌ {B = Controller ch × Bool} (shutdown ch c now) (λ x. some (x, true))
              else drain_loop ch c ps)
            ≡ some (d, on)
          → Delivers c d
      go true e = shutdown-Delivers c d now on e
      go false e = drain_loop-Delivers c d ps on e
  drain-Delivers c d (detached ring) now ps on e = shutdown-Delivers c d now on e

  pub finish_historical-Delivers :
      (c d : Controller ch) (taken : Bool) (now later : Timestamp) (ps : List (DrainPoll ch))
      (on : Bool)
      → finish_historical ch c taken now later ps ≡ some (d, on)
      → Delivers c d
  unfolding finish_historical
  finish_historical-Delivers c d false now later ps on e = shutdown-Delivers c d now on e
  finish_historical-Delivers c d true now later ps on e =
      let (x, emitted, rest) = bind-some (emit ch c (closing ch now)) _ (d, on) e in
      Delivers-trans c x d (closing ch now ∷ [], emit-Evolves ch c x (closing ch now) emitted)
        (drain-Delivers x d x.sink later ps on rest)
