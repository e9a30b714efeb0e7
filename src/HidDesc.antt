-- ===== src/HidDesc.antt =====
-- hidapi/hiddesc/descriptor.go: the report descriptor as data. A MainItem is "a oneOf type": a data
-- item or a collection. int32 fields are bit patterns (see Prelude.Word).
pub mod Tags
pub mod Payload
pub mod State
pub mod Commands
pub mod Decoder
pub mod Encoder
pub mod Numbers
pub mod Feed
pub mod Chunks
pub mod Segments
pub mod Tracking
pub mod Globals
pub mod Locals
pub mod Writable
pub mod Parts
pub mod MainItems
pub mod RoundTrip
mod Tests
use neio_agent.Prelude.{ℕ, ◌+◌, ◌/◌, ◌%◌, Bool, true, false, ◌==◌, not, List, [], ◌∷◌}

pub data MainItemType : Type 0 where
  input output feature : MainItemType

pub record DataItem : Type 0 where
  pub flags : ℕ
  pub usage_page : ℕ
  pub usage_ids : List ℕ
  pub usage_minimum : ℕ
  pub usage_maximum : ℕ
  pub report_count : ℕ
  pub report_size : ℕ
  pub report_id : ℕ
  pub designator_index : ℕ
  pub designator_minimum : ℕ
  pub designator_maximum : ℕ
  pub logical_minimum : ℕ
  pub logical_maximum : ℕ
  pub physical_minimum : ℕ
  pub physical_maximum : ℕ
  pub unit_exponent : ℕ
  pub unit : ℕ

mutual
  -- type, usage page, usage id, items
  pub data Collection : Type 0 where
    collection : ℕ → ℕ → ℕ → Items → Collection

  pub data Items : Type 0 where
    nil : Items
    cons : MainItem → Items → Items

  pub data MainItem : Type 0 where
    item : MainItemType → DataItem → MainItem
    nested : Collection → MainItem

-- The collections of a ReportDescriptor.
abbrev pub ReportDescriptor : Type 0
ReportDescriptor = List Collection

abbrev pub snoc : Items → MainItem → Items
snoc nil x = cons x nil
snoc (cons y ys) x = cons y (snoc ys x)

abbrev pub append_items : Items → Items → Items
append_items nil ys = ys
append_items (cons x xs) ys = cons x (append_items xs ys)

-- `collection.Items = append(collection.Items, item)`
abbrev pub add_item : Collection → MainItem → Collection
add_item (collection t p u items) x = collection t p u (snoc items x)

unfoldable mutual
  -- The sum of the report sizes of the data items.
  pub max_report_size : Collection → ℕ
  max_report_size (collection t p u items) = max_size_items items

  pub max_size_items : Items → ℕ
  max_size_items nil = 0
  max_size_items (cons x xs) = max_size_item x + max_size_items xs

  pub max_size_item : MainItem → ℕ
  max_size_item (item t d) = d.report_size
  max_size_item (nested c) = max_report_size c

-- `d & flag != 0`, for the flags 1, 2 and 4.
unfoldable pub is_constant : ℕ → Bool
is_constant flags = not (flags % 2 == 0)

unfoldable pub is_variable : ℕ → Bool
is_variable flags = not (flags / 2 % 2 == 0)

unfoldable pub is_relative : ℕ → Bool
is_relative flags = not (flags / 4 % 2 == 0)
