-- ===== src/Client/Session/Coalesce.antt =====
-- What a client session forwards of what its substreams send, each on behalf of the provider that
-- they share: a provider's connects, disconnects and errors come once from each substream.
use datamancer.Base.{
  ◌≡◌, refl, ◌∙◌, ap, Bool, true, false, not, Option, none, some, String, List, [], ◌∷◌, ◌==◌,
  string_eq, lookup, lookup-insert, arith, if◌then◌else◌, beq_refl, Bool-cases, inl, inr,
}
use datamancer.Core.Event.{
  MarketEvent, trade, quote, bar, control, ControlKind, provider_connected, provider_disconnected,
  provider_error, subscription_changed, session_closing, gap,
}
use datamancer.Channel.{Channel}
use datamancer.Client.Ring.{Entry}
use datamancer.Client.Occupancy.{ClientStats}
use datamancer.Client.Session.{
  Key, key_eq, ClientController, ClientSink, attached, detached, ConnState, is_up, is_down, admit,
  admit_control, note_conn, duplicate_error, route, deliver, deliver_to, deliver_sent,
  deliver_entries, same_state, provider_or,
}

-- The transition of provider `p` that an event reports, and the error.
abbrev kind_state : String → ControlKind → Option ConnState
kind_state p (provider_connected provider) = if provider == p then some is_up else none
kind_state p (provider_disconnected provider reason cause) =
    if provider == p then some is_down else none
kind_state p _ = none

abbrev state_of : String → MarketEvent → Option ConnState
state_of p (control c) = kind_state p c.kind
state_of p _ = none

abbrev kind_error : String → ControlKind → Option String
kind_error p (provider_error provider message) = if provider == p then some message else none
kind_error p _ = none

abbrev error_of : String → MarketEvent → Option String
error_of p (control c) = kind_error p c.kind
error_of p _ = none

abbrev newer {ℓ} : {A : Type ℓ} → Option A → Option A → Option A
newer before none = before
newer before (some x) = some x

abbrev is_state : Option ConnState → ConnState → Bool
is_state (some is_up) is_up = true
is_state (some is_down) is_down = true
is_state _ _ = false

abbrev is_message : Option String → String → Bool
is_message (some last) message = last == message
is_message none message = false

-- The events that are not for the client: a substream's closing, and what repeats a provider's last
-- state or its last error.
abbrev kind_repeats : (String → Option ConnState) → (String → Option String) → ControlKind → Bool
kind_repeats state error session_closing = true
kind_repeats state error (provider_connected p) = is_state (state p) is_up
kind_repeats state error (provider_disconnected p reason cause) = is_state (state p) is_down
kind_repeats state error (provider_error p message) = is_message (error p) message
kind_repeats state error _ = false

abbrev repeats : (String → Option ConnState) → (String → Option String) → MarketEvent → Bool
repeats state error (control c) = kind_repeats state error c.kind
repeats state error _ = false

-- The events that are for the client, each with the provider of its substream.
abbrev pub wanted :
    (Key → String)
    → (String → Option ConnState)
    → (String → Option String)
    → List (Key × MarketEvent)
    → List Entry
wanted provider state error [] = []
wanted provider state error ((key, ev) ∷ evs) =
    let rest =
      wanted provider (λ p. newer (state p) (state_of p ev)) (λ p. newer (error p) (error_of p ev))
        evs in
    if repeats state error ev then rest else (ev, provider key) ∷ rest

module _ (ch : Channel) where
  -- A run of arrivals.
  unfoldable pub route_all : ClientController ch → List (Key × MarketEvent) → ClientController ch
  unfolding route
  route_all c [] = c
  route_all c ((key, ev) ∷ evs) = route_all (route ch c key ev) evs

  abbrev with_memory :
      ClientController ch → List (String × ConnState) → List (String × String) → ClientController ch
  with_memory c seen errors = record c { seen_provider_state = seen; last_provider_error = errors }

  -- All of a controller but what it remembers of the providers.
  abbrev pub view :
      ClientController ch → List (Key × String) × List Key × ClientSink ch × ClientStats
  view c = (c.entries, c.streams, c.sink, c.stats)

  module _ (c : ClientController ch) (s : List (String × ConnState)) (e : List (String × String))
      (ev : MarketEvent) (provider : String) where
    sent-with_memory :
        (r : Bool × ch.Tx)
        → deliver_sent ch (with_memory c s e) ev provider r
          ≡ with_memory (deliver_sent ch c ev provider r) s e
    sent-with_memory (true, tx) = refl
    sent-with_memory (false, tx) = refl

    to-with_memory :
        (sink : ClientSink ch)
        → deliver_to ch (with_memory c s e) sink ev provider
          ≡ with_memory (deliver_to ch c sink ev provider) s e
    to-with_memory (detached ring) = refl
    to-with_memory (attached tx) = elim (Bool-cases (ch.is_closed tx)) [
      | inl h ↦ rw h refl
      | inr h ↦ rw h (sent-with_memory (ch.send tx ev))
    ]

    deliver-with_memory :
        deliver ch (with_memory c s e) ev provider ≡ with_memory (deliver ch c ev provider) s e
    unfolding deliver
    deliver-with_memory = to-with_memory c.sink

  deliver-entries :
      (c : ClientController ch) (ev : MarketEvent) (provider : String)
      → (deliver ch c ev provider).entries ≡ c.entries
  unfolding deliver
  deliver-entries c ev provider = ground arith

  -- What `admit` makes of an event: it writes nothing but the memory, of the event's own transition
  -- or error, and lets through what repeats neither.
  record Admits (c : ClientController ch) (ev : MarketEvent) (r : Bool × ClientController ch)
      : Type 0 where
    pub memory : r.1 ≡ with_memory c r.1.seen_provider_state r.1.last_provider_error
    pub flag :
        r.0
        ≡ not
            (repeats (λ p. lookup p c.seen_provider_state) (λ p. lookup p c.last_provider_error) ev)
    pub states :
        (p : String)
        → lookup p r.1.seen_provider_state ≡ newer (lookup p c.seen_provider_state) (state_of p ev)
    pub errors :
        (p : String)
        → lookup p r.1.last_provider_error ≡ newer (lookup p c.last_provider_error) (error_of p ev)

  note_conn-seen :
      (p q : String) (c : ClientController ch) (new : ConnState)
      → lookup p (note_conn ch c q new).1.seen_provider_state
        ≡ newer (lookup p c.seen_provider_state) (if q == p then some new else none)
  unfolding note_conn
  note_conn-seen p q c new = elim (Bool-cases (q == p)) [
    | inl same ↦
        let e : q ≡ p = (string_eq.beq_iff q p).0 same in
        rw (same, e) (ground (arith, lookup-insert p p new c.seen_provider_state, beq_refl p))
    | inr other ↦ rw other (ground (arith, lookup-insert q p new c.seen_provider_state))
  ]

  duplicate-errors :
      (p q : String) (c : ClientController ch) (message : String)
      → lookup p (duplicate_error ch c q message).1.last_provider_error
        ≡ newer (lookup p c.last_provider_error) (if q == p then some message else none)
  unfolding duplicate_error
  duplicate-errors p q c message = elim (Bool-cases (q == p)) [
    | inl same ↦
        let e : q ≡ p = (string_eq.beq_iff q p).0 same in
        rw (same, e) (go (lookup p c.last_provider_error) refl)
    | inr other ↦ rw other (ground (arith, lookup-insert q p message c.last_provider_error))
  ]
    where
      go :
          (l : Option String)
          → lookup p c.last_provider_error ≡ l
          → lookup p (duplicate_error ch c p message).1.last_provider_error ≡ some message
      go none h = rw h (ground (arith, lookup-insert p p message c.last_provider_error, beq_refl p))
      go (some last) h = elim (Bool-cases (last == message)) [
        | inl same ↦
            let t : last ≡ message = (string_eq.beq_iff last message).0 same in
            rw (h, same) (h ∙ ap some t)
        | inr other ↦
            rw (h, other)
              (ground (arith, lookup-insert p p message c.last_provider_error, beq_refl p))
      ]

  same_state-is_state : (l : Option ConnState) (new : ConnState) → same_state l new ≡ is_state l new
  same_state-is_state none new = refl
  same_state-is_state (some is_up) is_up = refl
  same_state-is_state (some is_up) is_down = refl
  same_state-is_state (some is_down) is_up = refl
  same_state-is_state (some is_down) is_down = refl

  note_conn-flag :
      (q : String) (c : ClientController ch) (new : ConnState)
      → (note_conn ch c q new).0 ≡ not (is_state (lookup q c.seen_provider_state) new)
  unfolding note_conn
  note_conn-flag q c new = ground (arith, same_state-is_state (lookup q c.seen_provider_state) new)

  note_conn-Admits :
      (q : String) (c : ClientController ch) (new : ConnState)
      → ((note_conn ch c q new).1
          ≡ with_memory c
              (note_conn ch c q new).1.seen_provider_state
              (note_conn ch c q new).1.last_provider_error)
        × ((note_conn ch c q new).1.last_provider_error ≡ c.last_provider_error)
  unfolding note_conn
  note_conn-Admits q c new = (ground arith, ground arith)

  duplicate-Admits :
      (q : String) (c : ClientController ch) (message : String)
      → ((duplicate_error ch c q message).1
          ≡ with_memory c
              (duplicate_error ch c q message).1.seen_provider_state
              (duplicate_error ch c q message).1.last_provider_error)
        × ((duplicate_error ch c q message).1.seen_provider_state ≡ c.seen_provider_state)
        × ((duplicate_error ch c q message).0 ≡ is_message (lookup q c.last_provider_error) message)
  unfolding duplicate_error
  duplicate-Admits q c message =
      (ground arith, ground arith, go (lookup q c.last_provider_error) refl)
    where
      go :
          (l : Option String)
          → lookup q c.last_provider_error ≡ l
          → (duplicate_error ch c q message).0 ≡ is_message l message
      go none h = rw h refl
      go (some last) h = elim (Bool-cases (last == message)) [
        | inl same ↦ rw (h, same) refl
        | inr other ↦ rw (h, other) refl
      ]

  admit-Admits : (c : ClientController ch) (ev : MarketEvent) → Admits c ev (admit ch c ev)
  unfolding admit admit_control
  admit-Admits c (trade t) = record {
    memory = refl;
    flag = refl;
    states = λ p. refl;
    errors = λ p. refl;
  }
  admit-Admits c (quote t) = record {
    memory = refl;
    flag = refl;
    states = λ p. refl;
    errors = λ p. refl;
  }
  admit-Admits c (bar t) = record {
    memory = refl;
    flag = refl;
    states = λ p. refl;
    errors = λ p. refl;
  }
  admit-Admits c (control k) = go k.kind
    where
      go :
          (kind : ControlKind)
          → Admits c (control (record k { kind = kind })) (admit_control ch c kind)
      go session_closing = record {
        memory = refl;
        flag = refl;
        states = λ p. refl;
        errors = λ p. refl;
      }
      go (subscription_changed q i x active) = record {
        memory = refl;
        flag = refl;
        states = λ p. refl;
        errors = λ p. refl;
      }
      go (gap q i span) = record {
        memory = refl;
        flag = refl;
        states = λ p. refl;
        errors = λ p. refl;
      }
      go (provider_connected q) = record {
        memory = (note_conn-Admits q c is_up).0;
        flag = note_conn-flag q c is_up;
        states = λ p. note_conn-seen p q c is_up;
        errors = λ p. ap (λ m. lookup p m) (note_conn-Admits q c is_up).1;
      }
      go (provider_disconnected q reason cause) = record {
        memory = (note_conn-Admits q c is_down).0;
        flag = note_conn-flag q c is_down;
        states = λ p. note_conn-seen p q c is_down;
        errors = λ p. ap (λ m. lookup p m) (note_conn-Admits q c is_down).1;
      }
      go (provider_error q message) =
          let (kept, same, told) = duplicate-Admits q c message in
          record {
            memory = kept;
            flag = ap not told;
            states = λ p. ap (λ m. lookup p m) same;
            errors = λ p. duplicate-errors p q c message;
          }

  repeats-cong :
      (s t : String → Option ConnState) (e f : String → Option String) (ev : MarketEvent)
      → ((p : String) → s p ≡ t p)
      → ((p : String) → e p ≡ f p)
      → repeats s e ev ≡ repeats t f ev
  repeats-cong s t e f (trade x) hs he = refl
  repeats-cong s t e f (quote x) hs he = refl
  repeats-cong s t e f (bar x) hs he = refl
  repeats-cong s t e f (control k) hs he = go k.kind
    where
      go : (kind : ControlKind) → kind_repeats s e kind ≡ kind_repeats t f kind
      go session_closing = refl
      go (subscription_changed q i x active) = refl
      go (gap q i span) = refl
      go (provider_connected q) = ap (λ l. is_state l is_up) (hs q)
      go (provider_disconnected q reason cause) = ap (λ l. is_state l is_down) (hs q)
      go (provider_error q message) = ap (λ l. is_message l message) (he q)

  route-flag :
      (c : ClientController ch) (key : Key) (ev : MarketEvent) (b : Bool)
      → (admit ch c ev).0 ≡ b
      → route ch c key ev ≡ (
          if b
          then deliver ch (admit ch c ev).1 ev (provider_or (lookup key c.entries) key)
          else (admit ch c ev).1)
  unfolding route
  route-flag c key ev b h = rw h refl

  -- A controller that is `d` but for its memory, which is as `state` and `error` say.
  Remembers :
      (String → Option ConnState)
      → (String → Option String)
      → List (String × ConnState)
      → List (String × String)
      → Type 0
  Remembers state error s e =
      ((p : String) → lookup p s ≡ state p) × ((p : String) → lookup p e ≡ error p)

  route_all-memory :
      (evs : List (Key × MarketEvent)) (d : ClientController ch) (s : List (String × ConnState))
      (e : List (String × String)) (state : String → Option ConnState)
      (error : String → Option String) (provider : Key → String)
      → Remembers state error s e
      → ((key : Key) → provider_or (lookup key d.entries) key ≡ provider key)
      → view (route_all (with_memory d s e) evs)
        ≡ view (deliver_entries ch d (wanted provider state error evs))
  unfolding route_all deliver_entries Remembers
  route_all-memory [] d s e state error provider h k = refl
  route_all-memory ((key, ev) ∷ evs) d s e state error provider h k =
      let c = with_memory d s e in
      let v = admit-Admits c ev in
      let after = (admit ch c ev).1 in
      let s' = after.seen_provider_state in
      let e' = after.last_provider_error in
      let state' = λ (p : String). newer (state p) (state_of p ev) in
      let error' = λ (p : String). newer (error p) (error_of p ev) in
      let told : Remembers state' error' s' e' = (
        λ p. v.states p ∙ ap (λ l. newer l (state_of p ev)) (h.0 p),
        λ p. v.errors p ∙ ap (λ l. newer l (error_of p ev)) (h.1 p),
      ) in
      let same = repeats-cong _ state _ error ev h.0 h.1 in
      elim (Bool-cases (repeats state error ev)) [
        | inl dropped ↦
            ap (λ x. view (route_all x evs))
              (route-flag c key ev false (v.flag ∙ ap not (same ∙ dropped)) ∙ v.memory)
            ∙ route_all-memory evs d s' e' state' error' provider told k
            ∙ rw dropped refl
        | inr passed ↦
            ap (λ x. view (route_all x evs))
              (route-flag c key ev true (v.flag ∙ ap not (same ∙ passed))
                ∙ ap (λ x. deliver ch x ev (provider_or (lookup key d.entries) key)) v.memory
                ∙ ap (λ q. deliver ch (with_memory d s' e') ev q) (k key)
                ∙ deliver-with_memory d s' e' ev (provider key))
            ∙ route_all-memory evs (deliver ch d ev (provider key)) s' e' state' error' provider
                told
                (λ j.
                  ap (λ m. provider_or (lookup j m) j) (deliver-entries d ev (provider key)) ∙ k j)
            ∙ rw passed refl
      ]

  -- Routing a run of arrivals leaves a client session, but for what it remembers of providers, as
  -- delivering in order those arrivals that are wanted does. Not wanted are a connect or disconnect
  -- that repeats the last state of its provider, an error that repeats its last error, by whichever
  -- substream they come, and the closing of a substream.
  pub route_all-wanted :
      (c : ClientController ch) (evs : List (Key × MarketEvent))
      → view (route_all c evs)
        ≡ view (
            deliver_entries ch c (
              wanted
                (λ key. provider_or (lookup key c.entries) key)
                (λ p. lookup p c.seen_provider_state)
                (λ p. lookup p c.last_provider_error)
                evs))
  unfolding Remembers
  route_all-wanted c evs =
      route_all-memory evs c c.seen_provider_state c.last_provider_error _ _ _
        (λ p. refl, λ p. refl) (λ key. refl)
