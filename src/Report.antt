-- ===== src/Report.antt =====
-- hidapi/report.go, data_items.go and codec.go: the data items of a device by report id, and the
-- reports as lists of fields. `none` is a run-time panic.
pub mod DataItems
pub mod Listed
pub mod Types
pub mod Typed
pub mod WithType
pub mod Codec
pub mod Encodes
pub mod Fields
pub mod DecodeFields
pub mod RoundTrip
mod Tests
use neio_agent.Prelude.{
  ℕ, Bool, true, false, not, ◌&&◌, List, [], ◌∷◌, if◌then◌else◌, ◌==◌, length, map,
}
use neio_agent.Bits.{Bits, equal}

pub record Report : Type 0 where
  pub id : ℕ
  pub fields : List Bits

-- The loop of `Equal` over two field lists of one length.
unfoldable pub equal_fields : List Bits → List Bits → Bool
equal_fields [] ys = true
equal_fields (x ∷ xs) [] = false
equal_fields (x ∷ xs) (y ∷ ys) = equal x y && equal_fields xs ys

unfoldable pub equal_reports : Report → Report → Bool
equal_reports a b =
    if not (a.id == b.id)
    then false
    else if not (length a.fields == length b.fields)
    then false
    else equal_fields a.fields b.fields
