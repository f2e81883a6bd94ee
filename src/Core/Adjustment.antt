-- ===== src/Core/Adjustment.antt =====
-- crates/datamancer-core/src/adjustment.rs: corporate-action modes and their cache-key tokens.
use datamancer.Base.{
  ◌≡◌, ◌↔◌, refl, arith, Option, none, some, String, ◌==◌, string_eq, if◌then◌else◌,
}

pub data Adjustment : Type 0 where
  raw split dividend spin_off all : Adjustment

pub as_str : Adjustment → String
as_str raw = "raw"
as_str split = "split"
as_str dividend = "dividend"
as_str spin_off = "spinoff"
as_str all = "all"

pub from_token : String → Option Adjustment
from_token token =
    if token == "raw"
    then some raw
    else if token == "split"
    then some split
    else if token == "dividend"
    then some dividend
    else if token == "spinoff"
    then some spin_off
    else if token == "all"
    then some all
    else none

as_str-from_token : (token : String) (a : Adjustment) → from_token token ≡ some a → as_str a ≡ token
unfolding from_token as_str
as_str-from_token token a h = ground (
  arith,
  string_eq.beq_iff token "raw",
  string_eq.beq_iff token "split",
  string_eq.beq_iff token "dividend",
  string_eq.beq_iff token "spinoff",
  string_eq.beq_iff token "all",
)

from_token-as_str : (a : Adjustment) → from_token (as_str a) ≡ some a
unfolding from_token as_str
from_token-as_str raw = refl
from_token-as_str split = refl
from_token-as_str dividend = refl
from_token-as_str spin_off = refl
from_token-as_str all = refl

-- A token parses to an adjustment exactly if it is the text that the adjustment prints.
pub from_token_iff :
    (token : String) (a : Adjustment) → (from_token token ≡ some a) ↔ (as_str a ≡ token)
from_token_iff token a = (as_str-from_token token a, λ e. rw⁻¹ e (from_token-as_str a))
