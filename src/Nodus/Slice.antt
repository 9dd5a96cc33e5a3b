-- ===== src/Nodus/Slice.antt =====
-- Go's `[]byte` values, as internal/nodus uses them: `nil`, or a view of the first `len` bytes of
-- a backing array. The program slices only from the front (`data[:n]`), so a view has no offset.
use crom_spirit_iso.Prelude.{ℕ, Option, none, some}

pub record Slice : Type 0 where
  pub addr : ℕ
  pub len : ℕ

-- `none` is the nil slice.
abbrev pub Blob : Type 0
Blob = Option Slice

-- `len(data)`
abbrev pub size : Blob → ℕ
size none = 0
size (some s) = s.len
