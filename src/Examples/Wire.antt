-- ===== src/Examples/Wire.antt =====
-- An event on the wire and back, and a contended fetch.
use datamancer.Base.{
  ◌≡◌, ◌≢◌, ◌≤◌, ◌&&◌, ◌||◌, ◌==◌, nat_eq, map, if◌then◌else◌, refl, Bool, true, false, Option,
  none, some, String, List, [], ◌∷◌, pos, arith, ℕ, lookup,
}
use datamancer.Core.Event.{trade_kind}
use datamancer.Core.Adjustment.{raw}
use datamancer.Core.Request.{CacheKey}
use datamancer.Transport.Symbols.{
  SymbolTable, Interned, interned, intern, intern_found, intern_new, intern_next, encode_instrument,
}
use datamancer.Transport.Symbols
use datamancer.Transport.Symbols.Table.{IsConsistent, Registered, intern-Registered}
use datamancer.Transport.Payload.{DataPayload, Encoded, encoded, to_pod, from_pod, decoded}
use datamancer.Transport.Payload.Trip.{learned, from_pod-to_pod}
use datamancer.FetchLocks.{
  Step, acquires, grants, releases, LockId, Entry, AsyncMutex, owners, place, new, run,
}
use datamancer.FetchLocks.Exclusion.{holders, run-holders}
use datamancer.Examples.Fixtures.{apple, trade_at}

-- Short texts, each of one byte.
abbrev one_byte : String → List ℕ
one_byte text = 65 ∷ []

new-IsConsistent : IsConsistent Symbols.new
unfolding lookup
new-IsConsistent = record {
  agree = λ i id. (λ e. absurd (ground (arith, e)), λ e. absurd (ground (arith, e)));
  bounded = omega arith;
}

abbrev table_of : Interned → SymbolTable
table_of (interned id t) = t
table_of _ = Symbols.new

abbrev first_table : SymbolTable
first_table = table_of (intern one_byte Symbols.new apple)

first_interned : intern one_byte Symbols.new apple ≡ interned 0 first_table
unfolding intern intern_found intern_new intern_next encode_instrument lookup
first_interned = refl

intern-Registered_example : Registered one_byte Symbols.new apple 0 first_table
intern-Registered_example =
    intern-Registered one_byte Symbols.new apple 0 first_table new-IsConsistent first_interned

abbrev sent : Encoded
sent = to_pod one_byte (trade_at apple 10 7) Symbols.new

abbrev pod_of : Encoded → Option DataPayload
pod_of (encoded p t) = p
pod_of _ = none

abbrev or_blank : Option DataPayload → DataPayload
or_blank (some p) = p
or_blank none = record {
  kind = 9;
  control_tag = 0;
  interval = 0;
  sub_kind = 0;
  active = 0;
  symbol = 0;
  seq = 0;
  source_ts = pos 0;
  rx_ts = pos 0;
  a = pos 0;
  b = pos 0;
  c = pos 0;
  d = pos 0;
  size0 = 0;
  size1 = 0;
}

sent_pod : sent ≡ encoded (some (or_blank (pod_of sent))) first_table
unfolding to_pod intern intern_found intern_new intern_next encode_instrument lookup
sent_pod = refl

from_pod-to_pod_example :
    from_pod (or_blank (pod_of sent)) (learned first_table) ≡ decoded (trade_at apple 10 7)
from_pod-to_pod_example =
    from_pod-to_pod one_byte (trade_at apple 10 7) Symbols.new first_table (or_blank (pod_of sent))
      new-IsConsistent tt sent_pod

abbrev wanted : CacheKey
wanted = record {
  instrument = apple;
  kind = trade_kind;
  from = pos 0;
  to = pos 20;
  adjustment = raw;
}

-- Two tasks want the same key; the first gets it and lets it go.
abbrev contention : List Step
contention = acquires 1 wanted ∷ grants 0 ∷ acquires 2 wanted ∷ releases 1 ∷ []

-- A mutex that serves in order of arrival.
abbrev is_held : LockId → List Entry → Bool
is_held id [] = false
is_held id (e ∷ es) = (e.lock == id && e.granted) || is_held id es

abbrev grant_first : LockId → List Entry → List Entry
grant_first id [] = []
grant_first id (e ∷ es) =
    let rest = grant_first id es in
    if e.lock == id then record e { granted = true } ∷ es else e ∷ rest

abbrev in_order : LockId → List Entry → List Entry
in_order id es = if is_held id es then es else grant_first id es

owners-held : (id : LockId) (es : List Entry) → is_held id es ≡ false → owners id es ≡ 0
owners-held id [] h = refl
owners-held id (e ∷ es) h = ground (arith, owners-held id es)

grant_first-place : (id : LockId) (es : List Entry) → map place (grant_first id es) ≡ map place es
grant_first-place id [] = refl
grant_first-place id (e ∷ es) = ground (arith, grant_first-place id es)

grant_first-one :
    (id : LockId) (es : List Entry) → owners id es ≡ 0 → owners id (grant_first id es) ≤ 1
grant_first-one id [] h = omega arith
grant_first-one id (e ∷ es) h = ground (arith, grant_first-one id es)

grant_first-other :
    (id j : LockId) (es : List Entry) → id ≢ j → owners j (grant_first id es) ≡ owners j es
grant_first-other id j [] n = refl
grant_first-other id j (e ∷ es) n = ground (arith, grant_first-other id j es n)

in_order-one : (id : LockId) (es : List Entry) → owners id es ≤ 1 → owners id (in_order id es) ≤ 1
in_order-one id es h = go (is_held id es) refl
  where
    go : (b : Bool) → is_held id es ≡ b → owners id (if b then es else grant_first id es) ≤ 1
    go true e = h
    go false e = grant_first-one id es (owners-held id es e)

in_order-place : (id : LockId) (es : List Entry) → map place (in_order id es) ≡ map place es
in_order-place id es = go (is_held id es)
  where
    go : (b : Bool) → map place (if b then es else grant_first id es) ≡ map place es
    go true = refl
    go false = grant_first-place id es

in_order-other :
    (id j : LockId) (es : List Entry) → id ≢ j → owners j (in_order id es) ≡ owners j es
in_order-other id j es n = go (is_held id es)
  where
    go : (b : Bool) → owners j (if b then es else grant_first id es) ≡ owners j es
    go true = refl
    go false = grant_first-other id j es n

abbrev fair : AsyncMutex
fair = record {
  hand_on = in_order;
  hand_on_place = in_order-place;
  hand_on_one = in_order-one;
  hand_on_other = in_order-other;
}

run-holders_example : holders wanted (run fair new contention).entries ≤ 1
run-holders_example = run-holders fair contention wanted
