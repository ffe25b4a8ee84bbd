-- ===== src/Flat/Access.antt =====
-- `enum Access` and its tests.
use fuguex_core.Prelude.{Bool, true, false}

pub data Access : Type 0 where
  read write read_write : Access

abbrev pub is_read : Access → Bool
is_read Access.read = true
is_read Access.write = false
is_read Access.read_write = false

abbrev pub is_write : Access → Bool
is_write Access.read = false
is_write Access.write = true
is_write Access.read_write = false

abbrev pub is_read_write : Access → Bool
is_read_write Access.read = false
is_read_write Access.write = false
is_read_write Access.read_write = true
