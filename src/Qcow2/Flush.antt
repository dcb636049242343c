-- ===== src/Qcow2/Flush.antt =====
-- `FlushL2Tables` and `FlushRefcountBlocks` of images/qcow2.cc: the file has every table after them.
use mvisor_x.Base.{ℕ, false, Option, none, some}
use mvisor_x.Qcow2.{Table}

-- the table of a map's entry once it is written
abbrev pub cleaned : Option (ℕ × Table) → Option (ℕ × Table)
cleaned none = none
cleaned (some (id, t)) = some (id, record t { dirty = false })
