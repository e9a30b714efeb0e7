-- ===== src/HidDesc/Writable.antt =====
-- The descriptors that the encoder writes without loss.
use neio_agent.Prelude.{◌<◌, IsByte, IsU16, IsU32}
use neio_agent.HidDesc.{DataItem, Collection, collection, Items, nil, cons, MainItem, item, nested}
use neio_agent.HidDesc.Numbers.{IsExact}
use neio_agent.HidDesc.Locals.{NoRepeat}

-- The fields are of their Go types. The flags fit one byte, no usage is 0 or follows itself, and the
-- int32 fields are numbers that `encodeTagi32` keeps.
pub record IsWritable (d : DataItem) : Type 0 where
  pub flags : IsByte d.flags
  pub usage_page : IsU16 d.usage_page
  pub usage_ids : NoRepeat 0 d.usage_ids
  pub usage_minimum : IsU16 d.usage_minimum
  pub usage_maximum : IsU16 d.usage_maximum
  pub report_count : IsU32 d.report_count
  pub report_size : IsU32 d.report_size
  pub report_id : IsByte d.report_id
  pub logical_minimum : IsU32 d.logical_minimum × IsExact d.logical_minimum
  pub logical_maximum : IsU32 d.logical_maximum × IsExact d.logical_maximum
  pub physical_minimum : IsU32 d.physical_minimum × IsExact d.physical_minimum
  pub physical_maximum : IsU32 d.physical_maximum × IsExact d.physical_maximum
  pub unit_exponent : IsU32 d.unit_exponent
  pub unit : IsU32 d.unit

unfoldable mutual
  pub IsWritableCollection : Collection → Type 0
  IsWritableCollection (collection t p u items) =
      IsByte t × IsU16 p × (0 < u) × IsU16 u × AreWritable items

  pub AreWritable : Items → Type 0
  AreWritable nil = Unit
  AreWritable (cons x xs) = IsWritableItem x × AreWritable xs

  pub IsWritableItem : MainItem → Type 0
  IsWritableItem (item t d) = IsWritable d
  IsWritableItem (nested c) = IsWritableCollection c
