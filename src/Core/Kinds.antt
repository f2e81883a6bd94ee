-- ===== src/Core/Kinds.antt =====
-- The event kinds that the catalog probes.
use datamancer.Base.{◌≡◌, refl, ◌+◌, ℕ, List, [], ◌∷◌, ◌==◌, if◌then◌else◌}
use datamancer.Core.Event.{
  EventKind, trade_kind, quote_kind, bar_kind, enumerate, kind_eq, one_second, one_minute,
  five_minute, fifteen_minute, one_hour, one_day,
}

abbrev pub occurrences : EventKind → List EventKind → ℕ
occurrences k [] = 0
occurrences k (j ∷ ks) = if j == k then occurrences k ks + 1 else occurrences k ks

-- `EventKind::enumerate` lists every event kind exactly once.
pub enumerate_complete : (k : EventKind) → occurrences k enumerate ≡ 1
unfolding enumerate
enumerate_complete trade_kind = refl
enumerate_complete quote_kind = refl
enumerate_complete (bar_kind one_second) = refl
enumerate_complete (bar_kind one_minute) = refl
enumerate_complete (bar_kind five_minute) = refl
enumerate_complete (bar_kind fifteen_minute) = refl
enumerate_complete (bar_kind one_hour) = refl
enumerate_complete (bar_kind one_day) = refl
