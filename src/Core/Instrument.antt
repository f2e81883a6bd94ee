-- ===== src/Core/Instrument.antt =====
-- crates/datamancer-core/src/instrument.rs: instrument identity. A provider id is its text.
use datamancer.Base.{◌≡◌, ◌↔◌, Bool, true, false, ◌&&◌, String, Eq, ◌==◌, string_eq, arith}

pub data AssetClass : Type 0 where
  equity etf crypto : AssetClass

-- The `Display` of an asset class.
abbrev pub asset_class_str : AssetClass → String
asset_class_str equity = "equity"
asset_class_str etf = "etf"
asset_class_str crypto = "crypto"

pub record Instrument : Type 0 where
  pub provider : String
  pub asset_class : AssetClass
  pub symbol : String

-- The derived `PartialEq` of both types.
abbrev asset_class_beq : AssetClass → AssetClass → Bool
asset_class_beq equity equity = true
asset_class_beq etf etf = true
asset_class_beq crypto crypto = true
asset_class_beq _ _ = false

abbrev instrument_beq : Instrument → Instrument → Bool
instrument_beq a b =
    a.provider == b.provider && asset_class_beq a.asset_class b.asset_class && a.symbol == b.symbol

instrument_beq_sound : (a b : Instrument) → instrument_beq a b ≡ true → a ≡ b
instrument_beq_sound a b h =
    ground (arith, string_eq.beq_iff a.provider b.provider, string_eq.beq_iff a.symbol b.symbol)

instrument_beq_refl : (a b : Instrument) → a ≡ b → instrument_beq a b ≡ true
instrument_beq_refl a b h =
    ground (arith, string_eq.beq_iff a.provider b.provider, string_eq.beq_iff a.symbol b.symbol)

pub instrument_beq_iff : (a b : Instrument) → (instrument_beq a b ≡ true) ↔ (a ≡ b)
instrument_beq_iff a b = (instrument_beq_sound a b, instrument_beq_refl a b)

instance abbrev pub instrument_eq : Eq Instrument
instrument_eq = record { beq = instrument_beq; beq_iff = instrument_beq_iff }
