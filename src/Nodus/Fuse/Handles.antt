-- ===== src/Nodus/Fuse/Handles.antt =====
-- Several handles and slices of internal/nodus/fuse.go: what `Flush` writes back, and what `Lookup` finds.
use crom_spirit_iso.Prelude.{
  ℕ, ◌+◌, ◌≤◌, ◌<◌, true, false, Option, none, some, List, [], ◌≡◌, refl, ◌∙◌, sym, ap, subst,
  arith, ltb, ◌==◌, ◌&&◌, length, Option-cases, inl, inr, take_of_length-le,
}
use crom_spirit_iso.Prelude.Text.{Bytes}
use crom_spirit_iso.Prelude.Dict
use crom_spirit_iso.Nodus.Cache.Entries.{Entries}
use crom_spirit_iso.Nodus.Slice.{Slice, Blob}
use crom_spirit_iso.Nodus.Cache
use crom_spirit_iso.Nodus.Cache.{Key, Cache}
use crom_spirit_iso.Nodus.Cache.Valid.{IsValid, entries}
use crom_spirit_iso.Nodus.Cache.Methods.{or_nil, find, spec_get, get_lem, put-IsValid, get-IsValid}
use crom_spirit_iso.Nodus.Cache.Reads.{get-put_self, get-find, get-delete_key}
use crom_spirit_iso.Nodus.Node.{Node, contents, allocate, PeerId, Exchange, request_file}
use crom_spirit_iso.Nodus.Node.Transfer.{
  Links, ReadsWhole, ask, first_held, request_file-first_held,
}
use crom_spirit_iso.Nodus.Fuse.{
  File, put, write_array, room_for, write, flush, create, lookup, lookup_cached, lookup_fetched,
}
use crom_spirit_iso.Nodus.Fuse.Contents.{
  reading, IsSlice, reading-put, room_for-grown, room_for-cache,
}

-- A handle's own bytes, in the memory after a write.
abbrev pub after_flush : File → File → Option (Node × File × ℕ × (Bytes × Slice)) → Option Bytes
after_flush f g none = none
after_flush f g (some r) = some (reading f (flush r.0 g))

-- The bytes of another array are not changed by a write that needs a longer array.
write_frame :
    (n : Node) (s : Slice) (t : Slice) (offset : ℕ) (b : Bytes)
    → s.len < offset + length b
    → IsSlice n t
    → let (n1, u) = room_for n s (offset + length b) in
      contents (write_array n1 u.addr offset b).arrays t ≡ contents n.arrays t
write_frame n s t offset b longer inside =
    let h1 = inside.1 in
    let fresh : (t.addr == n.fresh_array) ≡ false = ground arith in
    rw (room_for-grown n s (offset + length b) longer, fresh) refl

-- A lost update: after a write through one handle that makes the file longer, the flush of another
-- handle that was opened before puts its own old bytes back, and a read of the file returns these.
pub reading-flush :
    (limit : ℕ) (n : Node) (f g : File) (offset : ℕ) (b : Bytes)
    → IsValid n.cache
    → IsSlice n g.view
    → f.name ≡ g.name
    → f.view.len < offset + length b
    → offset + length b ≤ limit
    → after_flush f g (write limit n f offset b) ≡ some (contents n.arrays g.view)
unfolding write flush
reading-flush limit n f g offset b v inside same longer fits =
    let new_len = offset + length b in
    let (n1, s) = room_for n f.view new_len in
    let n2 = write_array n1 s.addr offset b in
    let n3 = put n2 f.name s in
    let enough : (ltb f.view.len new_len && ltb limit new_len) ≡ false = ground arith in
    let v2 : IsValid n2.cache = subst IsValid (sym (room_for-cache n f.view new_len)) v in
    let v3 : IsValid n3.cache = put-IsValid n2.cache v2 f.name (some s) in
    let read : reading f (put n3 g.name g.view) ≡ contents n3.arrays g.view =
      subst (λ k. reading f (put n3 k g.view) ≡ contents n3.arrays g.view) same
        (reading-put n3 f g.view v3) in
    rw enough (ap some (read ∙ write_frame n f.view g.view offset b longer inside))

-- The bytes of what `Lookup` found.
abbrev pub looked_up : Node × Option File → Option Bytes
looked_up (n, none) = none
looked_up (n, some f) = some (contents n.arrays f.view)

abbrev pub own_or : Option Bytes → Node → Blob → Option Bytes
own_or fetched n none = fetched
own_or fetched n (some s) = some (contents n.arrays s)

pub allocated_contents :
    (n : Node) (b : Bytes) → let (n', s) = allocate n b in contents n'.arrays s ≡ b
allocated_contents n b =
    let self : (n.fresh_array == n.fresh_array) ≡ true = ground arith in
    rw self (take_of_length-le (length b) b (omega arith))

looked_up-fetched :
    (sha256 : Bytes → Bytes) (n : Node) (name : Key) (fetched : Option Bytes)
    → looked_up (lookup_fetched sha256 n name fetched) ≡ fetched
unfolding lookup_fetched
looked_up-fetched sha256 n name none = refl
looked_up-fetched sha256 n name (some b) = ap some (allocated_contents n b)

pub looked_up-cached :
    (sha256 : Bytes → Bytes) (n : Node) (name : Key) (d : Blob) (fetched : Option Bytes)
    → looked_up (lookup_cached sha256 n name d fetched) ≡ own_or fetched n d
unfolding lookup_cached
looked_up-cached sha256 n name none fetched = looked_up-fetched sha256 n name fetched
looked_up-cached sha256 n name (some s) fetched = refl

-- A lookup between nodes with valid caches, for a name that the request buffer holds, and if each
-- peer that is reached reads the whole request at once, finds the bytes of the cached file, or those
-- of the first connected peer that is reached and has a file of that name that is not empty; otherwise
-- there is no such file.
pub looked_up-lookup :
    (sha256 : Bytes → Bytes) (nodes : PeerId → Node) (links : Links) (connected : List PeerId)
    (n : Node) (name : Key)
    → ((p : PeerId) → IsValid (nodes p).cache)
    → IsValid n.cache
    → length name < 1024
    → ReadsWhole links name
    → looked_up (lookup sha256 (ask nodes links) connected n name)
      ≡ own_or (first_held nodes links name connected) n (or_nil (find name (entries n.cache)))
unfolding lookup
looked_up-lookup sha256 nodes links connected n name valid v short reads =
    looked_up-cached sha256 (record n { cache = (Cache.get n.cache name).0 }) name
      (Cache.get n.cache name).1 (request_file (ask nodes links) connected name)
    ∙ ap (own_or (request_file (ask nodes links) connected name) n) (get-find n.cache name v)
    ∙ ap (λ r. own_or r n (or_nil (find name (entries n.cache))))
        (request_file-first_held nodes links valid name short reads connected)

looked_up-alone :
    (sha256 : Bytes → Bytes) (exchange : PeerId → Bytes → Exchange) (n : Node) (name : Key)
    → looked_up (lookup sha256 exchange [] n name) ≡ own_or none n (Cache.get n.cache name).1
unfolding lookup request_file
looked_up-alone sha256 exchange n name =
    looked_up-cached sha256 (record n { cache = (Cache.get n.cache name).0 }) name
      (Cache.get n.cache name).1 none

pub get-delete_self :
    (c : Cache) (k : Key) → IsValid c → (Cache.get (Cache.delete_key c k).0 k).1 ≡ none
get-delete_self c k v = (get-delete_key c k k v).0 ∙ ground arith

found_again :
    (l : Entries) (k : Key) → or_nil (find k l) ≡ none → or_nil (find k (spec_get k l).0) ≡ none
unfolding spec_get Dict.lookup
found_again l k h = elim (Option-cases (find k l)) [
  | inl e ↦ ground (arith, h, e)
  | inr (b, e) ↦ ground (arith, h, e)
]

pub get-get_self :
    (c : Cache) (k : Key)
    → IsValid c
    → (Cache.get c k).1 ≡ none
    → (Cache.get (Cache.get c k).0 k).1 ≡ none
unfolding spec_get
get-get_self c k v h =
    get-find (Cache.get c k).0 k (get-IsValid c v k)
    ∙ ap (λ r. or_nil (find k r.0)) (get_lem c v k)
    ∙ found_again (entries c) k (sym (get-find c k v) ∙ h)

-- Without peers, a file that was created is found, and is empty.
looked_up-create :
    (sha256 : Bytes → Bytes) (exchange : PeerId → Bytes → Exchange) (n : Node) (name : Key)
    → IsValid n.cache
    → looked_up (lookup sha256 exchange [] (create sha256 n name).0 name) ≡ some []
unfolding create
looked_up-create sha256 exchange n name v =
    let (n', s) = allocate n [] in
    looked_up-alone sha256 exchange (put n' name s) name
    ∙ ap (own_or none n') (get-put_self n.cache name (some s) v)
    ∙ ap some (allocated_contents n [])
