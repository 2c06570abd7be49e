-- ===== src/Base/Disk.antt =====
-- A file that is replaced by writing a temporary sibling and renaming it, and what may fail.
use mathlib.Core.Option.{Option}
use rook_host.Base.Bytes.{Bytes}

pub record Disk : Type 0 where
  pub file : Option Bytes
  pub tmp : Option Bytes

-- The first system call that fails, if any; a failed write leaves some bytes behind.
pub data Fault : Type 0 where
  no_fault : Fault
  mkdir_fault : Fault
  write_fault : Bytes → Fault
  rename_fault : Fault
