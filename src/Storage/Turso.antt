-- ===== src/Storage/Turso.antt =====
-- crates/datamancer/src/storage/turso.rs: the SQLite cache's coverage report. What the database
-- answers to `load_coverage` is an argument.
use datamancer.Base.{Option, none, some, List, [], map}
use datamancer.Core.Event.{Timestamp, GapSpan}
use datamancer.Storage.Coverage.{Range, CoverageDoc, gaps_within}

-- `CoverageDoc::default()`
abbrev pub no_coverage : CoverageDoc
no_coverage = record { segments = []; event_count = 0; asset_class = none }

abbrev pub to_spans : List Range → List GapSpan
to_spans = map (λ r. record { from_source_ts = r.0; to_source_ts = r.1 })

abbrev unwrap_or_default : Option CoverageDoc → CoverageDoc
unwrap_or_default none = no_coverage
unwrap_or_default (some doc) = doc

unfoldable pub gaps : Option CoverageDoc → Timestamp → Timestamp → List GapSpan
gaps loaded from to = to_spans (gaps_within (unwrap_or_default loaded) from to)
