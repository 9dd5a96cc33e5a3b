-- ===== src/Nodus/Fuse/Found.antt =====
-- What `Lookup` of internal/nodus/fuse.go finds of a file that was stored or removed just before.
use crom_spirit_iso.Prelude.{◌<◌, ◌≡◌, refl, ◌∙◌, ap, none, some, List, length, is_some}
use crom_spirit_iso.Prelude.Text.{Bytes}
use crom_spirit_iso.Nodus.Slice.{Blob}
use crom_spirit_iso.Nodus.Cache
use crom_spirit_iso.Nodus.Cache.{Key, Cache}
use crom_spirit_iso.Nodus.Cache.Valid.{IsValid, entries}
use crom_spirit_iso.Nodus.Cache.Methods.{or_nil, find, get-IsValid}
use crom_spirit_iso.Nodus.Cache.Reads.{get-put_self, get-find}
use crom_spirit_iso.Nodus.Node.{Node, allocate, PeerId, Exchange, request_file}
use crom_spirit_iso.Nodus.Node.Transfer.{
  stored, Links, ReadsWhole, ask, first_held, request_file-first_held,
}
use crom_spirit_iso.Nodus.Fuse.{remove, remove_found, lookup}
use crom_spirit_iso.Nodus.Fuse.Handles.{
  looked_up, own_or, looked_up-cached, allocated_contents, get-delete_self, get-get_self,
}

looked_up-get :
    (sha256 : Bytes → Bytes) (exchange : PeerId → Bytes → Exchange) (connected : List PeerId)
    (n : Node) (name : Key)
    → looked_up (lookup sha256 exchange connected n name)
      ≡ own_or (request_file exchange connected name) n (Cache.get n.cache name).1
unfolding lookup
looked_up-get sha256 exchange connected n name =
    looked_up-cached sha256 (record n { cache = (Cache.get n.cache name).0 }) name
      (Cache.get n.cache name).1 (request_file exchange connected name)

-- A file that was received is found, whatever the peers have.
pub looked_up-stored :
    (sha256 : Bytes → Bytes) (exchange : PeerId → Bytes → Exchange) (connected : List PeerId)
    (n : Node) (name : Key) (b : Bytes)
    → IsValid n.cache
    → looked_up (lookup sha256 exchange connected (stored n name b) name) ≡ some b
looked_up-stored sha256 exchange connected n name b v =
    let (n', s) = allocate n b in
    looked_up-get sha256 exchange connected (stored n name b) name
    ∙ ap (own_or (request_file exchange connected name) (stored n name b))
        (get-put_self n.cache name (some s) v)
    ∙ ap some (allocated_contents n b)

module _ (sha256 : Bytes → Bytes) (exchange : PeerId → Bytes → Exchange) (connected : List PeerId)
    (n : Node) (name : Key) (v : IsValid n.cache) where
  looked_up-remove_found :
      (d : Blob)
      → (Cache.get n.cache name).1 ≡ d
      → let n' = record n { cache = (Cache.get n.cache name).0 } in
        looked_up (lookup sha256 exchange connected (remove_found n' name d).0 name)
        ≡ request_file exchange connected name
  unfolding remove_found
  looked_up-remove_found none e =
      looked_up-get sha256 exchange connected (record n { cache = (Cache.get n.cache name).0 }) name
      ∙ ap (own_or (request_file exchange connected name) n) (get-get_self n.cache name v e)
  looked_up-remove_found (some s) e =
      looked_up-get sha256 exchange connected
        (record n { cache = (Cache.delete_key (Cache.get n.cache name).0 name).0 }) name
      ∙ ap (own_or (request_file exchange connected name) n)
          (get-delete_self (Cache.get n.cache name).0 name (get-IsValid n.cache v name))

  remove_found-is_some :
      (d : Blob)
      → (remove_found (record n { cache = (Cache.get n.cache name).0 }) name d).1 ≡ is_some d
  unfolding remove_found
  remove_found-is_some none = refl
  remove_found-is_some (some s) = refl

  -- A lookup after `Remove` has from the node itself nothing; and `Remove` succeeds on a cached file
  -- only.
  looked_up-remove :
      (looked_up (lookup sha256 exchange connected (remove n name).0 name)
        ≡ request_file exchange connected name)
      × ((remove n name).1 ≡ is_some (or_nil (find name (entries n.cache))))
  unfolding remove
  looked_up-remove = (
    looked_up-remove_found (Cache.get n.cache name).1 refl,
    remove_found-is_some (Cache.get n.cache name).1 ∙ ap is_some (get-find n.cache name v),
  )

-- `Remove` succeeds on a cached file only, and reaches no peer: a lookup after it finds the file
-- again as the first connected peer that is reached has it whose file of that name is not empty, and
-- finds nothing only if there is no such peer. The caches are valid, the request buffer holds the name,
-- and each peer that is reached reads the whole request at once.
pub looked_up-remove_again :
    (sha256 : Bytes → Bytes) (nodes : PeerId → Node) (links : Links) (connected : List PeerId)
    (n : Node) (name : Key)
    → ((p : PeerId) → IsValid (nodes p).cache)
    → IsValid n.cache
    → length name < 1024
    → ReadsWhole links name
    → (looked_up (lookup sha256 (ask nodes links) connected (remove n name).0 name)
        ≡ first_held nodes links name connected)
      × ((remove n name).1 ≡ is_some (or_nil (find name (entries n.cache))))
looked_up-remove_again sha256 nodes links connected n name valid v short reads =
    let (found, succeeds) = looked_up-remove sha256 (ask nodes links) connected n name v in
    (found ∙ request_file-first_held nodes links valid name short reads connected, succeeds)
