-- ===== src/Transport/Payload/Trip.antt =====
-- From an event to its wire record and back, over a resolver that knows the table.
use datamancer.Base.{
  ℕ, zero, suc, ◌+◌, ◌<◌, ◌≡◌, refl, sym, ap, ◌∙◌, subst, Bool, true, false, not, Option, none,
  some, String, List, [], ◌∷◌, arith, insert, lookup-insert, some-eq, ◌==◌, nat_eq,
}
use native.Mathlib.Nat.{add-zero}
use datamancer.Core.Instrument.{Instrument}
use datamancer.Core.Event.{
  BarInterval, one_second, one_minute, five_minute, fifteen_minute, one_hour, one_day, EventKind,
  trade_kind, quote_kind, bar_kind, MarketEvent, trade, quote, bar, control, Control, ControlKind,
  subscription_changed, gap, session_closing, provider_connected, provider_disconnected,
  provider_error,
}
use datamancer.Transport.Symbols.{
  SymbolId, connection, get_elem?, SymbolTable, Interned, interned, too_long, exhausted,
  SymbolResolver, resolve, learn, intern,
}
use datamancer.Transport.Symbols.Table.{IsConsistent, intern-Registered}
use datamancer.Transport.Payload.{
  DataPayload, Encoded, encoded, with_symbol, byte, trade_pod, quote_pod, bar_pod, control_pod,
  control_to_pod, to_pod, decoded, control_of, control_from_pod, from_pod, event_kind_to_tags,
  tags_to_event_kind, interval_to_tag, tag_to_interval,
}

-- A resolver that has learnt the instruments of a table, from a place on.
pub learn_all : ℕ → List Instrument → SymbolResolver → SymbolResolver
unfolding learn
learn_all n [] r = r
learn_all n (i ∷ is) r = learn_all (n + 1) is (learn r n i)

learn_all-before :
    (n id : ℕ) (is : List Instrument) (r : SymbolResolver)
    → id < n
    → resolve (learn_all n is r) id ≡ resolve r id
unfolding learn_all resolve learn
learn_all-before n id [] r h = refl
learn_all-before n id (i ∷ is) r h =
    learn_all-before (n + 1) id is (insert n i r) (omega (arith, h))
    ∙ ground (arith, lookup-insert n id i r)

learn_all-at :
    (n k : ℕ) (is : List Instrument) (r : SymbolResolver) (i : Instrument)
    → get_elem? is k ≡ some i
    → resolve (learn_all n is r) (n + k) ≡ some i
unfolding learn_all resolve learn
learn_all-at n k [] r i e = cc
learn_all-at n zero (j ∷ is) r i e =
    ap (resolve (learn_all (n + 1) is (insert n j r))) (add-zero n)
    ∙ learn_all-before (n + 1) n is (insert n j r) (omega arith)
    ∙ ground (arith, lookup-insert n n j r)
learn_all-at n (suc k) (j ∷ is) r i e =
    let same : n + suc k ≡ n + 1 + k = omega arith in
    ap (resolve (learn_all (n + 1) is (insert n j r))) same
    ∙ learn_all-at (n + 1) k is (insert n j r) i e

interval_trip : (i : BarInterval) → tag_to_interval (interval_to_tag i) ≡ some i
interval_trip one_second = refl
interval_trip one_minute = refl
interval_trip five_minute = refl
interval_trip fifteen_minute = refl
interval_trip one_hour = refl
interval_trip one_day = refl

kind_trip :
    (k : EventKind) → tags_to_event_kind (event_kind_to_tags k).0 (event_kind_to_tags k).1 ≡ some k
kind_trip trade_kind = refl
kind_trip quote_kind = refl
kind_trip (bar_kind i) = rw (interval_trip i)

byte_trip : (b : Bool) → not (byte b == 0) ≡ b
byte_trip true = refl
byte_trip false = refl

-- The resolver that has learnt all of a table, each instrument under its place.
pub learned : SymbolTable → SymbolResolver
learned t = learn_all 0 t.reverse []

-- A control over an instrument names the instrument's own provider.
abbrev pub IsOwnKind : ControlKind → Type 0
IsOwnKind (gap provider instrument span) = instrument.provider ≡ provider
IsOwnKind (subscription_changed provider instrument kind active) = instrument.provider ≡ provider
IsOwnKind _ = Unit

abbrev pub IsOwn : MarketEvent → Type 0
IsOwn (control c) = IsOwnKind c.kind
IsOwn _ = Unit

module _ (as_bytes : String → List ℕ) where
  -- The symbol of a record that was made is one that the resolver knows.
  Known : SymbolTable → Instrument → DataPayload → (SymbolId → DataPayload) → Type 0
  Known t' i p f = (id : SymbolId) × (p ≡ f id) × (resolve (learned t') id ≡ some i)

  symbol-Known :
      (t t' : SymbolTable) (i : Instrument) (p : DataPayload) (f : SymbolId → DataPayload)
      → IsConsistent t
      → with_symbol (intern as_bytes t i) f ≡ encoded (some p) t'
      → Known t' i p f
  unfolding Known learned
  symbol-Known t t' i p f v e = go (intern as_bytes t i) refl e
    where
      payload_of : Encoded → Option DataPayload
      payload_of (encoded o u) = o
      payload_of _ = none

      table_of : Encoded → SymbolTable
      table_of (encoded o u) = u
      table_of _ = t

      go :
          (x : Interned)
          → intern as_bytes t i ≡ x
          → with_symbol x f ≡ encoded (some p) t'
          → (id : SymbolId) × (p ≡ f id) × (resolve (learn_all 0 t'.reverse []) id ≡ some i)
      go (interned id u) made e =
          let w = intern-Registered as_bytes t i id u v made in
          let known : resolve (learn_all 0 u.reverse []) (0 + id) ≡ some i =
            learn_all-at 0 id u.reverse [] i w.listed in
          let place : 0 + id ≡ id = omega arith in
          (
            id,
            sym (some-eq (ap payload_of e)),
            subst (λ (x : SymbolTable). resolve (learn_all 0 x.reverse []) id ≡ some i)
                (ap table_of e)
                (subst (λ n. resolve (learn_all 0 u.reverse []) n ≡ some i) place known),
          )
      go (too_long n) made e = absurd (ground (arith, e))
      go exhausted made e = absurd (ground (arith, e))

  control-trip :
      (c : Control) (k : ControlKind) (t t' : SymbolTable) (p : DataPayload)
      → IsConsistent t
      → IsOwnKind k
      → control_to_pod as_bytes c t k ≡ encoded (some p) t'
      → from_pod p (learned t') ≡ decoded (control (record c { kind = k }))
  unfolding control_to_pod from_pod control_from_pod control_of Known
  control-trip c (provider_connected provider) t t' p v own e = absurd (ground (arith, e))
  control-trip c (provider_disconnected provider reason cause) t t' p v own e =
      absurd (ground (arith, e))
  control-trip c (provider_error provider message) t t' p v own e = absurd (ground (arith, e))
  control-trip c session_closing t t' p v own e =
      let same : control_pod c connection session_closing ≡ p = ground (arith, e) in
      subst (λ x. from_pod x (learned t') ≡ decoded (control (record c { kind = session_closing })))
        same refl
  control-trip c (gap provider i span) t t' p v own e =
      let (id, same, known) =
        symbol-Known t t' i p (λ id. control_pod c id (gap provider i span)) v e in
      rw (same, known, own)
  control-trip c (subscription_changed provider i kind active) t t' p v own e =
      let (id, same, known) =
        symbol-Known t t' i p (λ id. control_pod c id (subscription_changed provider i kind active))
          v e in
      rw (same, known, kind_trip kind, byte_trip active, own)

  -- An event that is put on the wire, from a table whose directions are in step, is read back as it
  -- was by a resolver that has learnt the table; a control over an instrument must name the
  -- instrument's own provider, which is all that the record tells of it.
  pub from_pod-to_pod :
      (ev : MarketEvent) (t t' : SymbolTable) (p : DataPayload)
      → IsConsistent t
      → IsOwn ev
      → to_pod as_bytes ev t ≡ encoded (some p) t'
      → from_pod p (learned t') ≡ decoded ev
  unfolding to_pod from_pod Known
  from_pod-to_pod (trade x) t t' p v own e =
      let (id, same, known) = symbol-Known t t' x.instrument p (trade_pod x) v e in rw (same, known)
  from_pod-to_pod (quote x) t t' p v own e =
      let (id, same, known) = symbol-Known t t' x.instrument p (quote_pod x) v e in rw (same, known)
  from_pod-to_pod (bar x) t t' p v own e =
      let (id, same, known) = symbol-Known t t' x.instrument p (bar_pod x) v e in
      rw (same, known, interval_trip x.interval)
  from_pod-to_pod (control c) t t' p v own e = control-trip c c.kind t t' p v own e
