-- ===== src/Nodus/System/Handlers.antt =====
-- What the handlers of internal/nodus/fuse.go do to a node whose cache is valid and holds only slices of
-- allocated arrays: it stays so, and a file that a handler returns has such a slice, of an array made for it.
use crom_spirit_iso.Prelude.{
  ℕ, ◌≡◌, ◌∙◌, ◌+◌, ◌-◌, ◌≤◌, ltb, Option, none, some, List, [], ◌++◌, Bool-cases, inl, inr, arith,
  length, replicate, length-append, length-replicate, ◌&&◌, dec_le,
}
use crom_spirit_iso.Prelude.Text.{Bytes}
use crom_spirit_iso.Nodus.Slice.{Slice, Blob}
use crom_spirit_iso.Nodus.Cache
use crom_spirit_iso.Nodus.Cache.{Key}
use crom_spirit_iso.Nodus.Cache.Holds.{OfBlob, OfBlob-get}
use crom_spirit_iso.Nodus.Node.{Node, contents, allocate, PeerId, Exchange, request_file}
use crom_spirit_iso.Nodus.Fuse.{
  File, put, write_array, lookup, lookup_cached, lookup_fetched, create, remove, remove_found,
  refreshed, read_all, room_for, write, flush, resize, setattr,
}
use crom_spirit_iso.Nodus.Fuse.Contents.{length-contents, room_for-grown, room_for-same}
use crom_spirit_iso.Nodus.System.{written_file}
use crom_spirit_iso.Nodus.System.Grows.{
  Owner, IsOwn, IsSoundNode, Grows, owned_by, Grows-refl, Grows-trans, put-Grows, allocate-Grows,
  IsOwn-allocate, write_array-Grows, get-Grows, delete_key-Grows,
}

-- What a handler does to a node, for some owners of the new arrays.
abbrev pub GrowsBy : Key → Node → Owner → Node → Type 0
GrowsBy w n own n' = (own' : Owner) × Grows w n own n' own'

-- A handler's node and the file that it returns or changes: its name and its slice.
abbrev pub Yields : Key → Node → Owner → Node → Key → Slice → Type 0
Yields w n own n' k s = (own' : Owner) × Grows w n own n' own' × IsOwn n' own' k s

-- A slice in a new array is cached.
pub stored-Yields :
    (w : Key) (n : Node) (own : Owner) (k : Key) (b : Bytes)
    → IsSoundNode n own
    → let (n', s) = allocate n b in Yields w n own (put n' k s) k s
stored-Yields w n own k b h =
    let own' = owned_by n.fresh_array k own in
    let g = allocate-Grows w n own k b h in
    let inside = IsOwn-allocate n own k b in
    let p = put-Grows w (allocate n b).0 own' k (allocate n b).1 g.sound inside in
    (own', Grows-trans g p, inside)

abbrev pub Opens : Key → Node → Owner → Node × Option File → Type 0
Opens w n own (n', none) = GrowsBy w n own n'
Opens w n own (n', some f) = Yields w n own n' f.name f.view

module _ (sha256 : Bytes → Bytes) (w : Key) (n : Node) (own : Owner) (h : IsSoundNode n own)
    (k : Key) where
  lookup_fetched-Opens :
      (fetched : Option Bytes) → Opens w n own (lookup_fetched sha256 n k fetched)
  unfolding lookup_fetched
  lookup_fetched-Opens none = (own, Grows-refl w n own h)
  lookup_fetched-Opens (some b) = stored-Yields w n own k b h

  lookup_cached-Opens :
      (d : Blob) (fetched : Option Bytes)
      → OfBlob (IsOwn n own) k d
      → Opens w n own (lookup_cached sha256 n k d fetched)
  unfolding lookup_cached
  lookup_cached-Opens (some s) fetched inside = (own, Grows-refl w n own h, inside)
  lookup_cached-Opens none fetched inside = lookup_fetched-Opens fetched

  pub create-Yields : let (n', f) = create sha256 n k in Yields w n own n' f.name f.view
  unfolding create
  create-Yields = stored-Yields w n own k [] h

Opens-trans :
    (w : Key) (a b : Node) (own own' : Owner) (r : Node × Option File)
    → Grows w a own b own'
    → Opens w b own' r
    → Opens w a own r
Opens-trans w a b own own' (n, none) g (o, g') = (o, Grows-trans g g')
Opens-trans w a b own own' (n, some f) g (o, g', inside) = (o, Grows-trans g g', inside)

module _ (w : Key) (n : Node) (own : Owner) (h : IsSoundNode n own) where
  found-IsOwn : (k : Key) → OfBlob (IsOwn n own) k (Cache.get n.cache k).1
  found-IsOwn k = OfBlob-get (IsOwn n own) n.cache h.valid k h.cached

  pub lookup-Opens :
      (sha256 : Bytes → Bytes) (exchange : PeerId → Bytes → Exchange) (peers : List PeerId)
      (k : Key)
      → Opens w n own (lookup sha256 exchange peers n k)
  unfolding lookup
  lookup-Opens sha256 exchange peers k =
      let n1 = record n { cache = (Cache.get n.cache k).0 } in
      let g = get-Grows w n own k h in
      let fetched = request_file exchange peers k in
      Opens-trans w n n1 own own (lookup_cached sha256 n1 k (Cache.get n.cache k).1 fetched) g (
        lookup_cached-Opens sha256 w n1 own g.sound k (Cache.get n.cache k).1 fetched
          (found-IsOwn k))

  remove_found-Grows : (k : Key) (d : Blob) → Grows w n own (remove_found n k d).0 own
  unfolding remove_found
  remove_found-Grows k none = Grows-refl w n own h
  remove_found-Grows k (some s) = delete_key-Grows w n own k h

  refreshed-IsOwn :
      (f : File) (d : Blob)
      → IsOwn n own f.name f.view
      → OfBlob (IsOwn n own) f.name d
      → IsOwn n own (refreshed f d).name (refreshed f d).view
  refreshed-IsOwn f none i o = i
  refreshed-IsOwn f (some s) i o = o

  pub read_all-Yields :
      (f : File)
      → IsOwn n own f.name f.view
      → let r = read_all n f in Yields w n own r.0 r.1.name r.1.view
  unfolding read_all
  read_all-Yields f inside = (
    own,
    get-Grows w n own f.name h,
    refreshed-IsOwn f (Cache.get n.cache f.name).1 inside (found-IsOwn f.name),
  )

  pub flush-Yields :
      (f : File) → IsOwn n own f.name f.view → Yields w n own (flush n f) f.name f.view
  unfolding flush
  flush-Yields f inside = (own, put-Grows w n own f.name f.view h inside, inside)

  room_for-Yields :
      (k : Key) (s : Slice) (size : ℕ)
      → IsOwn n own k s
      → let (n1, t) = room_for n s size in Yields w n own n1 k t × (size ≤ t.len)
  room_for-Yields k s size inside = elim (dec_le size s.len) [
    | yes le ↦ rw (room_for-same n s size le) ((own, Grows-refl w n own h, inside), le)
    | no gt ↦
        let b = contents n.arrays s ++ replicate (size - s.len) 0 in
        let enough : size ≤ length b = omega (
          arith,
          length-append (contents n.arrays s) (replicate (size - s.len) 0),
          length-replicate {A = ℕ} (size - s.len) 0,
          length-contents n s inside.0,
        ) in
        rw (room_for-grown n s size (omega arith)) (
          (owned_by n.fresh_array k own, allocate-Grows w n own k b h, IsOwn-allocate n own k b),
          enough,
        )
  ]

  written_array-Yields :
      (f : File) (offset : ℕ) (b : Bytes)
      → f.name ≡ w
      → IsOwn n own f.name f.view
      → let (n1, s) = room_for n f.view (offset + length b) in
        let n2 = write_array n1 s.addr offset b in Yields w n own (put n2 f.name s) f.name s
  written_array-Yields f offset b mine inside =
      let (n1, s) = room_for n f.view (offset + length b) in
      let ((own', g, inside1), enough) = room_for-Yields f.name f.view (offset + length b) inside in
      let fits : offset + length b ≤ length (n1.arrays s.addr) = omega (arith, enough, inside1) in
      let g' = write_array-Grows w n1 own' s.addr offset b fits (inside1.1 ∙ mine) g.sound in
      let n2 = write_array n1 s.addr offset b in
      let inside2 = g'.kept f.name s inside1 in
      (
        own',
        Grows-trans g (Grows-trans g' (put-Grows w n2 own' f.name s g'.sound inside2)),
        inside2,
      )

  resize-Yields :
      (k : Key) (s : Slice) (size : ℕ)
      → IsOwn n own k s
      → let (n1, t) = resize n s size in Yields w n own n1 k t
  unfolding resize
  resize-Yields k s size inside = elim (Bool-cases (ltb size s.len)) [
    | inl cut ↦ rw cut (own, Grows-refl w n own h, ground (arith, cut))
    | inr whole ↦ rw whole (elim (Bool-cases (ltb s.len size)) [
      | inl longer ↦
          let b = contents n.arrays s ++ replicate (size - s.len) 0 in
          rw longer
            (owned_by n.fresh_array k own, allocate-Grows w n own k b h, IsOwn-allocate n own k b)
      | inr same ↦ rw same (own, Grows-refl w n own h, inside)
    ])
  ]

pub remove-Grows :
    (w : Key) (n : Node) (own : Owner) (k : Key)
    → IsSoundNode n own
    → Grows w n own (remove n k).0 own
unfolding remove
remove-Grows w n own k h =
    let g = get-Grows w n own k h in
    Grows-trans g (
      remove_found-Grows w (record n { cache = (Cache.get n.cache k).0 }) own g.sound k
        (Cache.get n.cache k).1)

-- A request that changes a file, and does not panic.
abbrev pub Changes : Key → Node → Owner → Option (Node × File) → Type 0
Changes w n own none = Unit
Changes w n own (some (n', f)) = Yields w n own n' f.name f.view

module _ (limit : ℕ) (w : Key) (n : Node) (own : Owner) (h : IsSoundNode n own) where
  pub write-Changes :
      (f : File) (offset : ℕ) (b : Bytes)
      → f.name ≡ w
      → IsOwn n own f.name f.view
      → Changes w n own (written_file (write limit n f offset b))
  unfolding write
  write-Changes f offset b mine inside =
      elim (Bool-cases (ltb f.view.len (offset + length b) && ltb limit (offset + length b))) [
        | inl panic ↦ rw panic tt
        | inr fine ↦ rw fine (written_array-Yields w n own h f offset b mine inside)
      ]

  pub setattr-Changes :
      (f : File) (size : Option ℕ)
      → IsOwn n own f.name f.view
      → Changes w n own (setattr limit n f size)
  unfolding setattr
  setattr-Changes f none inside = (own, Grows-refl w n own h, inside)
  setattr-Changes f (some size) inside = elim (Bool-cases (ltb f.view.len size && ltb limit size)) [
    | inl panic ↦ rw panic tt
    | inr fine ↦
        let (n1, s) = resize n f.view size in
        let (own', g, inside1) = resize-Yields w n own h f.name f.view size inside in
        let p = put-Grows w n1 own' f.name s g.sound inside1 in
        rw fine (own', Grows-trans g p, inside1)
  ]
