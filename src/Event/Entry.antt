-- ===== src/Event/Entry.antt =====
-- The entries of the two tables of src/probe/ph_evt_x86.c.
use Prim.Native.String.{String}
use perf_hound.Prelude.{ℕ, Bytes, codes, Option, none, some}

-- `struct ph_umask`; the name of a terminator is NULL.
pub record Umask : Type 0 where
  pub umask_val : ℕ
  pub name : Option Bytes

abbrev pub umask : ℕ → String → Umask
umask v s = record { umask_val = v; name = some (codes s) }

abbrev pub null_umask : Umask
null_umask = record { umask_val = 0; name = none }

-- `struct ph_event`; the pointer into `UMASK_LIST` is an index.
pub record Event : Type 0 where
  pub evt_num : ℕ
  pub umasks : ℕ
  pub name : Bytes

abbrev pub event : ℕ → ℕ → String → Event
event c i s = record { evt_num = c; umasks = i; name = codes s }
