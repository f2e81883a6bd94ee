-- ===== src/Core/Request.antt =====
-- crates/datamancer-core/src/traits: what is asked of a provider's history and of the cache.
use datamancer.Base.{◌≡◌, ◌↔◌, refl, subst, Bool, true, false, ◌&&◌, Eq, ◌==◌, beq_refl, arith}
use datamancer.Base.Int.{leb_ℤ, eq_of_parts}
use datamancer.Core.Instrument.{Instrument, instrument_eq}
use datamancer.Core.Event.{Timestamp, EventKind, kind_eq}
use datamancer.Core.Adjustment.{Adjustment, raw, split, dividend, spin_off, all}

pub record HistoryRequest : Type 0 where
  pub instrument : Instrument
  pub kind : EventKind
  pub from : Timestamp
  pub to : Timestamp
  pub adjustment : Adjustment

pub record CacheKey : Type 0 where
  pub instrument : Instrument
  pub kind : EventKind
  pub from : Timestamp
  pub to : Timestamp
  pub adjustment : Adjustment

-- The derived `PartialEq` of a key, which the registry of fetch locks hashes.
abbrev adjustment_beq : Adjustment → Adjustment → Bool
adjustment_beq raw raw = true
adjustment_beq split split = true
adjustment_beq dividend dividend = true
adjustment_beq spin_off spin_off = true
adjustment_beq all all = true
adjustment_beq _ _ = false

abbrev ts_beq : Timestamp → Timestamp → Bool
ts_beq s t = leb_ℤ s t && leb_ℤ t s

ts_beq_iff : (s t : Timestamp) → (ts_beq s t ≡ true) ↔ (s ≡ t)
ts_beq_iff s t =
    (λ h. eq_of_parts s t (ground (arith, h)), λ e. subst (λ x. ts_beq s x ≡ true) e (ground arith))

adjustment_beq_iff : (a b : Adjustment) → (adjustment_beq a b ≡ true) ↔ (a ≡ b)
adjustment_beq_iff a b = (λ h. ground arith, λ e. ground arith)

abbrev cache_key_beq : CacheKey → CacheKey → Bool
cache_key_beq a b =
    a.instrument == b.instrument
    && a.kind == b.kind
    && ts_beq a.from b.from
    && ts_beq a.to b.to
    && adjustment_beq a.adjustment b.adjustment

same_key :
    (a b : CacheKey)
    → a.instrument ≡ b.instrument
    → a.kind ≡ b.kind
    → a.from ≡ b.from
    → a.to ≡ b.to
    → a.adjustment ≡ b.adjustment
    → a ≡ b
same_key a b i k f t m = ground arith

all_true :
    (p q r s u : Bool)
    → (p && q && r && s && u ≡ true)
      ↔ ((p ≡ true) × (q ≡ true) × (r ≡ true) × (s ≡ true) × (u ≡ true))
all_true p q r s u = (λ h. ground arith, λ h. ground arith)

cache_key_beq_sound : (a b : CacheKey) → cache_key_beq a b ≡ true → a ≡ b
cache_key_beq_sound a b h =
    let (p, q, r, s, u) =
      (all_true (a.instrument == b.instrument) (a.kind == b.kind) (ts_beq a.from b.from)
          (ts_beq a.to b.to) (adjustment_beq a.adjustment b.adjustment)).0
        h in
    let i : a.instrument ≡ b.instrument = (instrument_eq.beq_iff a.instrument b.instrument).0 p in
    let k : a.kind ≡ b.kind = (kind_eq.beq_iff a.kind b.kind).0 q in
    let f : a.from ≡ b.from = (ts_beq_iff a.from b.from).0 r in
    let t : a.to ≡ b.to = (ts_beq_iff a.to b.to).0 s in
    let m : a.adjustment ≡ b.adjustment = (adjustment_beq_iff a.adjustment b.adjustment).0 u in
    same_key a b i k f t m

cache_key_beq_refl : (a : CacheKey) → cache_key_beq a a ≡ true
cache_key_beq_refl a =
    (all_true (a.instrument == a.instrument) (a.kind == a.kind) (ts_beq a.from a.from)
        (ts_beq a.to a.to) (adjustment_beq a.adjustment a.adjustment)).1
      (
        beq_refl a.instrument,
        beq_refl a.kind,
        (ts_beq_iff a.from a.from).1 refl,
        (ts_beq_iff a.to a.to).1 refl,
        (adjustment_beq_iff a.adjustment a.adjustment).1 refl,
      )

pub cache_key_beq_iff : (a b : CacheKey) → (cache_key_beq a b ≡ true) ↔ (a ≡ b)
cache_key_beq_iff a b =
    (cache_key_beq_sound a b, λ e. subst (λ x. cache_key_beq a x ≡ true) e (cache_key_beq_refl a))

instance abbrev pub cache_key_eq : Eq CacheKey
cache_key_eq = record { beq = cache_key_beq; beq_iff = cache_key_beq_iff }
