-- ===== src/Transport/Symbols.antt =====
-- crates/datamancer-transport-iceoryx2/src/symbol_table.rs: `SymbolTable` and `SymbolResolver`. The
-- bytes of a text (`str::as_bytes`) are a parameter. Announcements are not modelled.
pub mod Table
use datamancer.Base.{
  ℕ, zero, suc, Option, none, some, String, List, [], ◌∷◌, ◌++◌, length, ltb, leb, if◌then◌else◌,
  lookup, insert, nat_eq,
}
use datamancer.Core.Instrument.{Instrument, instrument_eq, asset_class_str}

abbrev symbol_string_capacity : ℕ
symbol_string_capacity = 64

-- ASCII unit separator
abbrev separator : ℕ
separator = 31

abbrev pub SymbolId : Type 0
SymbolId = ℕ

-- `SymbolId::CONNECTION`, u32::MAX
abbrev pub connection : SymbolId
connection = 4294967295

-- `slice::get`
abbrev pub get_elem? {ℓ} : {A : Type ℓ} → List A → ℕ → Option A
get_elem? [] n = none
get_elem? (x ∷ xs) zero = some x
get_elem? (x ∷ xs) (suc n) = get_elem? xs n

pub record SymbolTable : Type 0 where
  pub forward : List (Instrument × SymbolId)
  pub reverse : List Instrument

abbrev pub new : SymbolTable
new = record { forward = []; reverse = [] }

-- `Result<SymbolId, InstrumentTooLong>` with the table, or the panic of an exhausted id space.
pub data Interned : Type 0 where
  interned : SymbolId → SymbolTable → Interned
  too_long : (encoded_len : ℕ) → Interned
  exhausted : Interned

-- `SymbolResolver`
abbrev pub SymbolResolver : Type 0
SymbolResolver = List (SymbolId × Instrument)

unfoldable pub resolve : SymbolResolver → SymbolId → Option Instrument
resolve r id = lookup id r

-- `SymbolResolver::insert`
unfoldable pub learn : SymbolResolver → SymbolId → Instrument → SymbolResolver
learn r id i = insert id i r

module _ (as_bytes : String → List ℕ) where
  unfoldable pub encode_instrument : Instrument → List ℕ
  encode_instrument i =
      as_bytes i.provider
      ++ (separator ∷ as_bytes (asset_class_str i.asset_class))
      ++ (separator ∷ as_bytes i.symbol)

  -- An instrument that is not in the table yet; `next` is `reverse.len()`.
  unfoldable pub intern_next : SymbolTable → Instrument → ℕ → Interned
  intern_next t i next =
      if leb connection next
      then exhausted
      else interned next
          (record { forward = insert i next t.forward; reverse = t.reverse ++ (i ∷ []) })

  unfoldable pub intern_new : SymbolTable → Instrument → ℕ → Interned
  unfolding intern_next
  intern_new t i encoded_len =
      if ltb symbol_string_capacity encoded_len
      then too_long encoded_len
      else intern_next t i (length t.reverse)

  unfoldable pub intern_found : SymbolTable → Instrument → Option SymbolId → Interned
  unfolding intern_new encode_instrument
  intern_found t i (some id) = interned id t
  intern_found t i none = intern_new t i (length (encode_instrument i))

  unfoldable pub intern : SymbolTable → Instrument → Interned
  unfolding intern_found
  intern t i = intern_found t i (lookup i t.forward)
