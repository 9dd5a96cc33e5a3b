-- ===== src/Nodus/Fuse.antt =====
-- The file system: internal/nodus/fuse.go. A handler takes the node and returns it with its reply;
-- `none` for a file is ENOENT. The kernel's requests give offsets and sizes that are not negative.
-- Times are left out; the mount and the other attributes are in Startup.antt.
pub mod Inode
pub mod Contents
pub mod Resize
pub mod Handles
pub mod Found
use crom_spirit_iso.Prelude.{
  ℕ, zero, suc, ◌+◌, ◌-◌, Bool, true, false, Option, none, some, List, [], ◌∷◌, ◌++◌, map, ltb, leb,
  ◌==◌, if◌then◌else◌, length, take, drop, replicate, ◌&&◌,
}
use crom_spirit_iso.Prelude.Text.{Bytes}
use crom_spirit_iso.Nodus.Slice.{Slice, Blob}
use crom_spirit_iso.Nodus.Cache
use crom_spirit_iso.Nodus.Cache.{Key, Cache}
use crom_spirit_iso.Nodus.Node.{Node, contents, allocate, PeerId, Exchange, request_file}
use Inode.{hash_string}

-- `data` of the source is `view`. A file's slice is never nil.
pub record File : Type 0 where
  pub name : Key
  pub view : Slice
  pub inode : ℕ

pub record Dirent : Type 0 where
  pub inode : ℕ
  pub name : Key

-- `c.Put` on the node's cache
abbrev pub put : Node → Key → Slice → Node
put n k s = record n { cache = Cache.put n.cache k (some s) }

-- `copy(to[offset:], bytes)` on the bytes of an array that is long enough
abbrev pub splice : ℕ → Bytes → Bytes → Bytes
splice offset b to = take offset to ++ b ++ drop (offset + length b) to

abbrev pub write_array : Node → ℕ → ℕ → Bytes → Node
write_array n addr offset b = record n {
  arrays = λ i. if i == addr then splice offset b (n.arrays addr) else n.arrays i;
}

-- `make([]byte, size)` and `copy` of a shorter slice into it
abbrev pub grown : Node → Slice → ℕ → Node × Slice
grown n s size = allocate n (contents n.arrays s ++ replicate (size - s.len) 0)

module _ (sha256 : Bytes → Bytes) where
  abbrev pub file_of : Key → Slice → File
  file_of name s = record { name = name; view = s; inode = hash_string sha256 name }

  -- `Lookup`, with what the peers answer.
  unfoldable pub lookup_fetched : Node → Key → Option Bytes → Node × Option File
  lookup_fetched n name none = (n, none)
  lookup_fetched n name (some b) =
      let (n', s) = allocate n b in (put n' name s, some (file_of name s))

  unfoldable pub lookup_cached : Node → Key → Blob → Option Bytes → Node × Option File
  lookup_cached n name (some s) fetched = (n, some (file_of name s))
  lookup_cached n name none fetched = lookup_fetched n name fetched

  unfoldable pub lookup :
      (PeerId → Bytes → Exchange) → List PeerId → Node → Key → Node × Option File
  lookup exchange connected n name =
      let (cache', found) = Cache.get n.cache name in
      lookup_cached (record n { cache = cache' }) name found (request_file exchange connected name)

  unfoldable pub read_dir_all : Node → List Dirent
  read_dir_all n = map (λ k. record { inode = hash_string sha256 k; name = k }) (Cache.keys n.cache)

  unfoldable pub create : Node → Key → Node × File
  create n name = let (n', s) = allocate n [] in (put n' name s, file_of name s)

-- Whether the file was there.
unfoldable pub remove_found : Node → Key → Blob → Node × Bool
remove_found n name none = (n, false)
remove_found n name (some s) = (record n { cache = (Cache.delete_key n.cache name).0 }, true)

unfoldable pub remove : Node → Key → Node × Bool
remove n name =
    let (cache', found) = Cache.get n.cache name in
    remove_found (record n { cache = cache' }) name found

-- `Size` of `Attr`
abbrev pub attr_size : File → ℕ
attr_size f = f.view.len

abbrev pub refreshed : File → Blob → File
refreshed f none = f
refreshed f (some s) = record f { view = s }

unfoldable pub read_all : Node → File → Node × File × Bytes
read_all n f =
    let (cache', found) = Cache.get n.cache f.name in
    let f' = refreshed f found in (record n { cache = cache' }, f', contents n.arrays f'.view)

-- The slice that `Write` copies into: a longer array if need be.
unfoldable pub room_for : Node → Slice → ℕ → Node × Slice
room_for n s new_len =
    let longer = grown n s new_len in if ltb s.len new_len then longer else (n, s)

-- With `resp.Size`, and with what the goroutine that is started calls `BroadcastFile` with: a name and
-- a slice, which it has not read yet. `none` is the panic of `make` above `limit`.
unfoldable pub write : ℕ → Node → File → ℕ → Bytes → Option (Node × File × ℕ × (Bytes × Slice))
write limit n f offset b =
    let new_len = offset + length b in
    let (n1, s) = room_for n f.view new_len in
    let n2 = write_array n1 s.addr offset b in
    let n3 = put n2 f.name s in
    if ltb f.view.len new_len && ltb limit new_len
    then none
    else some (n3, record f { view = s }, length b, (f.name, s))

unfoldable pub flush : Node → File → Node
flush n f = put n f.name f.view

-- The part of `Setattr` under `Valid.Size()`; the file has the new size in its attributes.
unfoldable pub resize : Node → Slice → ℕ → Node × Slice
resize n s size =
    let longer = grown n s size in
    if ltb size s.len
    then (n, record s { len = size })
    else if ltb s.len size
    then longer
    else (n, s)

unfoldable pub setattr : ℕ → Node → File → Option ℕ → Option (Node × File)
setattr limit n f none = some (n, f)
setattr limit n f (some size) =
    let (n', s) = resize n f.view size in
    if ltb f.view.len size && ltb limit size
    then none
    else some (put n' f.name s, record f { view = s })
