-- ===== src/Nodus/Cache/Valid.antt =====
-- The invariant of the cache of internal/nodus/cache.go.
use crom_spirit_iso.Prelude.{◌%◌, ◌<◌, ◌≡◌, length, All, word}
use crom_spirit_iso.Prelude.Dict.{lookup, Distinct}
use crom_spirit_iso.Prelude.Text.{Bytes_discrete}
use crom_spirit_iso.Nodus.Cache.{Key, Cache}
use crom_spirit_iso.Nodus.Cache.Entries.{Entries, view, total, cell_of}

-- The cache's entries, most recently used first.
abbrev pub entries : Cache → Entries
entries c = view c.cells c.order

pub record IsValid (c : Cache) : Type 0 where
  -- The map leads to the element of the list that holds the key, for every key.
  pub agree : (k : Key) → lookup Bytes_discrete k c.items ≡ cell_of c.cells k c.order
  pub items_distinct : Distinct Bytes_discrete c.items
  pub distinct : Distinct Bytes_discrete (entries c)
  pub allocated : All (λ i. i < c.fresh) c.order
  pub counted : length c.items ≡ length c.order
  -- `used` is the number of bytes held, as an int64.
  pub accounted : c.used ≡ total (entries c) % word
