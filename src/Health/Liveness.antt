-- ===== src/Health/Liveness.antt =====
-- What the health view reports of a stream, from the state it was sampled from.
use datamancer.Base.{
  ◌≡◌, ◌≢◌, refl, Bool, true, false, Option, none, some, String, List, [], ◌∷◌, ℤ, pos, ◌≤ℤ◌, ◌<ℤ◌,
  arith, if◌then◌else◌, Bool-cases, inl, inr, some-eq, sym, subst, ◌∙◌, All,
}
use datamancer.Base.Int.{◌-ℤ◌, ltb_ℤ, leb_ℤ, -ℤ_parts}
use datamancer.Core.Event.{
  Timestamp, Control, provider_disconnected, DisconnectCause, disabled, error, unauthenticated,
  companion_unreachable, i64_max,
}
use datamancer.Client.Stats.{LiveStats, StreamConnection, pending, up, down, record_connection}
use datamancer.Client.Stats.Connection.{is_down, is_connect, last_cause, receive, receive-outage}
use datamancer.Health.Snapshot.{AuthHandle, StreamSnapshot, stream_snapshot, sub_i64}
use datamancer.Health.View.{
  Liveness, live, awaiting_data, backfill_in_progress, stale, quiet, gapped, liveness, fault_since,
  gap_liveness, data_liveness, fault_liveness,
}

-- A wall-clock time since 1970 that an i64 holds.
abbrev IsTime : Timestamp → Type 0
IsTime t = (pos 0 ≤ℤ t) × (t ≤ℤ i64_max)

abbrev IsTimeOr : Option Timestamp → Type 0
IsTimeOr none = Unit
IsTimeOr (some t) = IsTime t

sub_i64-exact : (a b : Timestamp) → IsTime a → IsTime b → sub_i64 a b ≡ a -ℤ b
unfolding sub_i64
sub_i64-exact a b ha hb = ground (arith, -ℤ_parts a b)

-- A stream that is down is at fault, whatever the cause but a provider that is disabled.
abbrev pub HasNoFault : StreamConnection → Type 0
HasNoFault c =
    (since : Timestamp) (cause : DisconnectCause) → c ≡ down since cause → cause ≡ disabled

-- What the documentation of `Liveness` lists, in its order of precedence.
pub data Judged (s : StreamSnapshot) (now : Timestamp) (quiet_after : ℤ) : Liveness → Type 0 where
  mid_seam : s.backfilling ≡ true → Judged s now quiet_after backfill_in_progress
  faulty :
      (since : Timestamp) (cause : DisconnectCause)
      → s.backfilling ≡ false
      → s.connection ≡ down since cause
      → cause ≢ disabled
      → Judged s now quiet_after (stale since)
  no_data :
      s.backfilling ≡ false
      → HasNoFault s.connection
      → s.last_rx_ts ≡ none
      → Judged s now quiet_after awaiting_data
  silent :
      (rx : Timestamp)
      → s.backfilling ≡ false
      → HasNoFault s.connection
      → s.last_rx_ts ≡ some rx
      → quiet_after <ℤ (now -ℤ rx)
      → Judged s now quiet_after (quiet rx)
  lossy :
      (rx gap_rx : Timestamp)
      → s.backfilling ≡ false
      → HasNoFault s.connection
      → s.last_rx_ts ≡ some rx
      → (now -ℤ rx) ≤ℤ quiet_after
      → s.last_gap_rx_ts ≡ some gap_rx
      → (now -ℤ gap_rx) ≤ℤ quiet_after
      → Judged s now quiet_after (gapped s.recent_gaps)
  healthy :
      (rx : Timestamp)
      → s.backfilling ≡ false
      → HasNoFault s.connection
      → s.last_rx_ts ≡ some rx
      → (now -ℤ rx) ≤ℤ quiet_after
      → ((gap_rx : Timestamp) → s.last_gap_rx_ts ≡ some gap_rx → quiet_after <ℤ (now -ℤ gap_rx))
      → Judged s now quiet_after live

module _ (s : StreamSnapshot) (now : Timestamp) (quiet_after : ℤ) (now_ok : IsTime now) where
  older_gap :
      (g gap_rx : Timestamp)
      → IsTime g
      → g ≡ gap_rx
      → leb_ℤ (sub_i64 now g) quiet_after ≡ false
      → quiet_after <ℤ (now -ℤ gap_rx)
  older_gap g gap_rx ok same old =
      subst (λ t. quiet_after <ℤ (now -ℤ t)) same (ground (arith, sub_i64-exact now g now_ok ok))

  judge_gap :
      (rx : Timestamp)
      → s.backfilling ≡ false
      → HasNoFault s.connection
      → s.last_rx_ts ≡ some rx
      → (now -ℤ rx) ≤ℤ quiet_after
      → (g : Option Timestamp) → s.last_gap_rx_ts ≡ g
      → IsTimeOr g
      → Judged s now quiet_after (gap_liveness g s.recent_gaps now quiet_after)
  judge_gap rx b f e le none eg ok = healthy rx b f e le (λ gap_rx same. ground arith)
  judge_gap rx b f e le (some g) eg ok = elim (Bool-cases (leb_ℤ (sub_i64 now g) quiet_after)) [
    | inl recent ↦
        rw recent (lossy rx g b f e le eg (ground (arith, sub_i64-exact now g now_ok ok)))
    | inr old ↦
        rw old
          (healthy rx b f e le (λ gap_rx same. older_gap g gap_rx ok (some-eq (sym eg ∙ same)) old))
  ]

  judge_data :
      (r : Option Timestamp)
      → s.backfilling ≡ false
      → HasNoFault s.connection
      → s.last_rx_ts ≡ r
      → IsTimeOr r
      → IsTimeOr s.last_gap_rx_ts
      → Judged s now quiet_after (data_liveness r s now quiet_after)
  judge_data none b f e ok gap_ok = no_data b f e
  judge_data (some rx) b f e ok gap_ok = elim (Bool-cases (ltb_ℤ quiet_after (sub_i64 now rx))) [
    | inl old ↦ rw old (silent rx b f e (ground (arith, sub_i64-exact now rx now_ok ok)))
    | inr recent ↦ rw recent (
        judge_gap rx b f e (ground (arith, sub_i64-exact now rx now_ok ok)) s.last_gap_rx_ts refl
          gap_ok)
  ]

  judge_fault :
      (c : StreamConnection)
      → s.backfilling ≡ false
      → s.connection ≡ c
      → IsTimeOr s.last_rx_ts
      → IsTimeOr s.last_gap_rx_ts
      → Judged s now quiet_after (fault_liveness (fault_since c) s now quiet_after)
  unfolding fault_since
  judge_fault pending b e ok gap_ok = judge_data s.last_rx_ts b (λ t why h. cc) refl ok gap_ok
  judge_fault (up since) b e ok gap_ok = judge_data s.last_rx_ts b (λ t why h. cc) refl ok gap_ok
  judge_fault (down since disabled) b e ok gap_ok =
      judge_data s.last_rx_ts b (λ t why h. cc) refl ok gap_ok
  judge_fault (down since error) b e ok gap_ok = faulty since error b e (ground arith)
  judge_fault (down since unauthenticated) b e ok gap_ok =
      faulty since unauthenticated b e (ground arith)
  judge_fault (down since companion_unreachable) b e ok gap_ok =
      faulty since companion_unreachable b e (ground arith)

  judge_seam :
      (b : Bool)
      → s.backfilling ≡ b
      → IsTimeOr s.last_rx_ts
      → IsTimeOr s.last_gap_rx_ts
      → Judged s now quiet_after (
          if b
          then backfill_in_progress
          else fault_liveness (fault_since s.connection) s now quiet_after)
  judge_seam true e ok gap_ok = mid_seam e
  judge_seam false e ok gap_ok = judge_fault s.connection e refl ok gap_ok

-- When the times involved are wall-clock times since 1970, the liveness of a stream is the one the
-- documented precedence gives it, with ages taken as integers that do not wrap.
pub liveness-Judged :
    (s : StreamSnapshot) (now : Timestamp) (quiet_after : ℤ)
    → IsTime now
    → IsTimeOr s.last_rx_ts
    → IsTimeOr s.last_gap_rx_ts
    → Judged s now quiet_after (liveness s now quiet_after)
unfolding liveness
liveness-Judged s now quiet_after now_ok ok gap_ok =
    judge_seam s now quiet_after now_ok s.backfilling refl ok gap_ok

receive-backfilling :
    (s : LiveStats) (cs : List Control) → (receive s cs).backfilling ≡ s.backfilling
unfolding receive record_connection
receive-backfilling s [] = refl
receive-backfilling s (c ∷ cs) = receive-backfilling (record_connection s c).0 cs

down_fault :
    (p : StreamConnection) (since : Timestamp) (cause : DisconnectCause)
    → p ≡ down since cause
    → cause ≢ disabled
    → fault_since p ≡ some since
unfolding fault_since
down_fault p since cause e n = ground arith

fault_stale :
    (s : StreamSnapshot) (now : Timestamp) (quiet_after : ℤ) (since : Timestamp)
    → s.backfilling ≡ false
    → fault_since s.connection ≡ some since
    → liveness s now quiet_after ≡ stale since
unfolding liveness
fault_stale s now quiet_after since b f = ground arith

-- A session that is not backfilling and was not down receives a disconnect and then any controls
-- but connects, the last disconnect of them for another cause than a deliberate disable: from then
-- on, at any time and whatever data and gaps it had, the health view shows it stale since the
-- receipt of that first disconnect.
pub liveness-outage :
    (h : AuthHandle) (c : Control) (provider reason : String) (cause : DisconnectCause)
    (cs : List Control) (now : Timestamp) (quiet_after : ℤ)
    → is_down h.stats.connection ≡ false
    → h.stats.backfilling ≡ false
    → c.kind ≡ provider_disconnected provider reason cause
    → All (λ d. is_connect d.kind ≡ false) cs
    → last_cause cause cs ≢ disabled
    → liveness (stream_snapshot (record h { stats = receive h.stats (c ∷ cs) })) now quiet_after
      ≡ stale c.rx_ts
unfolding stream_snapshot
liveness-outage h c provider reason cause cs now quiet_after up_before idle_seam k rest faulted =
    let outage = receive-outage h.stats c provider reason cause cs up_before k rest in
    fault_stale (stream_snapshot (record h { stats = receive h.stats (c ∷ cs) })) now quiet_after
      c.rx_ts (receive-backfilling h.stats (c ∷ cs) ∙ idle_seam)
      (down_fault (receive h.stats (c ∷ cs)).connection c.rx_ts (last_cause cause cs) outage.1
        faulted)
