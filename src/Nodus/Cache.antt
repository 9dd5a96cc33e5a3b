-- ===== src/Nodus/Cache.antt =====
-- The LRU cache: internal/nodus/cache.go. Every method holds the mutex from its first statement
-- to its return, so a method is one atomic step on the state.
--
-- A `*list.Element` is the number of a cell; `cells` is the memory that those pointers lead to,
-- `order` is the `*list.List` from front to back, and `fresh` is the next cell to allocate.
-- `items` is the map, in the order in which a `range` over it happens to run. `capacity` and
-- `used` are int64 bit patterns.
pub mod Entries
pub mod Valid
pub mod Steps
pub mod Evict
pub mod Methods
pub mod Holds
pub mod Refine
pub mod Reads
use crom_spirit_iso.Prelude.{
  ℕ, zero, suc, ◌+◌, Bool, true, false, ◌&&◌, ◌||◌, List, [], ◌∷◌, map, Option, none, some, ltb,
  ◌==◌, if◌then◌else◌, length, int64, add64, sub64, gt64,
}
use crom_spirit_iso.Prelude.Dict.{lookup, insert, delete}
use crom_spirit_iso.Prelude.Text.{Bytes, Bytes_discrete}
use crom_spirit_iso.Nodus.Slice.{Blob, size}

abbrev pub Key : Type 0
Key = Bytes

-- `cacheEntry`. The field of the source is `data`, a word of this language.
pub record CacheEntry : Type 0 where
  pub key : Key
  pub blob : Blob

pub record Cache : Type 0 where
  pub capacity : ℕ
  pub used : ℕ
  pub items : List (Key × ℕ)
  pub order : List ℕ
  pub cells : ℕ → CacheEntry
  pub fresh : ℕ

-- container/list: `Remove`, `Back`, `MoveToFront`, `PushFront`, on the elements' cells.
unfoldable pub remove : ℕ → List ℕ → List ℕ
remove e [] = []
remove e (x ∷ xs) = if x == e then xs else x ∷ remove e xs

unfoldable pub contains : ℕ → List ℕ → Bool
contains e [] = false
contains e (x ∷ xs) = x == e || contains e xs

unfoldable pub back : List ℕ → Option ℕ
back [] = none
back (x ∷ []) = some x
back (x ∷ y ∷ xs) = back (y ∷ xs)

-- An element of another list is left where it is.
unfoldable pub move_to_front : ℕ → List ℕ → List ℕ
unfolding remove contains
move_to_front e l = if contains e l then e ∷ remove e l else l

-- A write through a pointer.
abbrev pub write : (ℕ → CacheEntry) → ℕ → CacheEntry → ℕ → CacheEntry
write cells e v i = if i == e then v else cells i

-- What an unallocated cell holds; it is never read.
abbrev pub no_entry : CacheEntry
no_entry = record { key = []; blob = none }

unfoldable pub new_cache : ℕ → Cache
new_cache capacity = record {
  capacity = capacity;
  used = 0;
  items = [];
  order = [];
  cells = λ i. no_entry;
  fresh = 0;
}

unfoldable pub get : Cache → Key → Cache × Blob
unfolding move_to_front
get c key = elim (lookup Bytes_discrete key c.items) [
  | some elem ↦ (record c { order = move_to_front elem c.order }, (c.cells elem).blob)
  | none ↦ (c, none)
]

unfoldable pub evict_oldest : Cache → Cache
unfolding remove back
evict_oldest c = elim (back c.order) [
  | none ↦ c
  | some oldest ↦
      let entry = c.cells oldest in
      record c {
        order = remove oldest c.order;
        items = delete Bytes_discrete entry.key c.items;
        used = sub64 c.used (int64 (size entry.blob));
      }
]

-- The condition of the eviction loop in `Put`.
abbrev pub must_evict : Cache → ℕ → Bool
must_evict c data_size = gt64 (add64 c.used data_size) c.capacity && ltb 0 (length c.order)

-- `for c.used+dataSize > c.capacity && c.order.Len() > 0 { c.evictOldest() }`, on fuel.
unfoldable pub evict_loop : ℕ → Cache → ℕ → Cache
unfolding evict_oldest
evict_loop zero c data_size = c
evict_loop (suc fuel) c data_size =
    let rest = evict_loop fuel (evict_oldest c) data_size in
    if must_evict c data_size then rest else c

-- `Put` on a key that the map has.
unfoldable pub put_update : Cache → ℕ → Key → Blob → Cache
unfolding move_to_front
put_update c elem key blob =
    let old = c.cells elem in
    record c {
      used = add64 (sub64 c.used (int64 (size old.blob))) (int64 (size blob));
      cells = write c.cells elem (record old { blob = blob });
      order = move_to_front elem c.order;
    }

-- `Put` on a new key, after the eviction loop.
unfoldable pub put_new : Cache → Key → Blob → Cache
put_new c key blob = record c {
  cells = write c.cells c.fresh (record { key = key; blob = blob });
  order = c.fresh ∷ c.order;
  items = insert Bytes_discrete key c.fresh c.items;
  used = add64 c.used (int64 (size blob));
  fresh = c.fresh + 1;
}

-- One round for each element is enough fuel: a round removes one.
unfoldable pub put : Cache → Key → Blob → Cache
unfolding evict_loop put_update put_new
put c key blob = elim (lookup Bytes_discrete key c.items) [
  | some elem ↦ put_update c elem key blob
  | none ↦ put_new (evict_loop (length c.order) c (int64 (size blob))) key blob
]

-- `Delete`, and whether the key was there.
unfoldable pub delete_key : Cache → Key → Cache × Bool
unfolding remove
delete_key c key = elim (lookup Bytes_discrete key c.items) [
  | none ↦ (c, false)
  | some elem ↦
      let entry = c.cells elem in
      (
        record c {
          order = remove elem c.order;
          items = delete Bytes_discrete key c.items;
          used = sub64 c.used (int64 (size entry.blob));
        },
        true,
      )
]

unfoldable pub keys : Cache → List Key
keys c = map (λ e. e.0) c.items

abbrev pub cache_size : Cache → ℕ
cache_size c = c.used

abbrev pub count : Cache → ℕ
count c = length c.items

-- `Clear`. The old cells stay in memory, unreachable.
unfoldable pub clear : Cache → Cache
clear c = record c { items = []; order = []; used = 0 }
