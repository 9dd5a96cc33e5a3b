-- ===== src/Tests/NodeTests.antt =====
-- Two nodes of internal/nodus and a few files.
use crom_spirit_iso.Prelude.{
  ◌+◌, ◌*◌, ◌<◌, ◌≡◌, refl, List, [], ◌∷◌, ◌++◌, some, arith, ite, is_some, none, length, replicate,
}
use crom_spirit_iso.Prelude.Strings.{space_width}
use crom_spirit_iso.Prelude.Text.{Bytes, bytes, Bytes_discrete}
use crom_spirit_iso.Nodus.Cache.{Key}
use crom_spirit_iso.Nodus.Cache.Valid.{IsValid, entries}
use crom_spirit_iso.Nodus.Cache.Methods.{new_cache-IsValid, put-IsValid, or_nil, find}
use crom_spirit_iso.Nodus.Node.{
  Node, new_node, PeerId, contents, broadcast_header, handle_file_broadcast, request_file,
}
use crom_spirit_iso.Nodus.Node.Scan.{token, rune_width}
use crom_spirit_iso.Nodus.Node.Parse.{no_more, rune_1, rune_2}
use crom_spirit_iso.Nodus.Node.Transfer
use crom_spirit_iso.Nodus.Node.Transfer.{stored, Links, ReadsWhole, ask, first_held}
use crom_spirit_iso.Nodus.Fuse.{File, create, write, setattr, lookup, remove}
use crom_spirit_iso.Nodus.Fuse.Contents
use crom_spirit_iso.Nodus.Fuse.Resize
use crom_spirit_iso.Nodus.Fuse.Resize.{after_setattr, resized}
use crom_spirit_iso.Nodus.Fuse.Contents.{after_write, patched, IsSlice}
use crom_spirit_iso.Nodus.Fuse.Found
use crom_spirit_iso.Nodus.Fuse.Handles
use crom_spirit_iso.Nodus.Fuse.Handles.{after_flush, looked_up, own_or}

program : Unit {0}
unfolding new_node create
program = tt

abbrev a : Key
a = bytes "a"

abbrev hello : Bytes
hello = bytes "hello"

new_node-IsValid : IsValid new_node.cache
unfolding program
new_node-IsValid = new_cache-IsValid (256 * 1024 * 1024)

-- A byte that is no UTF-8 is read as U+FFFD, and white space of three bytes ends a name.
name_read : token 0 (0x61 ∷ 0xff ∷ 0xe2 ∷ 0x80 ∷ 0x83 ∷ []) ≡ (bytes "a�", 0xe2 ∷ 0x80 ∷ 0x83 ∷ [])
unfolding token rune_width space_width
name_read = refl

-- The header and the first two bytes of the file come in one read: these two are lost.
handle_file_broadcast_lem_example :
    handle_file_broadcast 1000 new_node
      (some (broadcast_header a (length (bytes "he" ++ bytes "llo")) ++ bytes "he"))
      (bytes "llo")
    ≡ some (stored new_node a (bytes "llo" ++ replicate (length (bytes "he")) 0))
handle_file_broadcast_lem_example =
    Transfer.handle_file_broadcast_lem 1000 new_node b'a' [] (bytes "he") (bytes "llo")
      (rune_1 b'a' [] refl refl no_more) (omega arith) (omega arith)

handle_file_broadcast-send_example :
    handle_file_broadcast 1000 new_node (some (broadcast_header (bytes "é") (length hello))) hello
    ≡ some (stored new_node (bytes "é") hello)
handle_file_broadcast-send_example =
    Transfer.handle_file_broadcast-send 1000 new_node 0xc3 (0xa9 ∷ []) hello
      (rune_2 0xc3 0xa9 [] refl refl no_more) (omega arith) (omega arith)

-- The node with `a`, and one with nothing.
abbrev holder : Node
holder = stored new_node a hello

abbrev nodes : PeerId → Node
nodes p = ite (Bytes_discrete p (bytes "p")) holder new_node

nodes-IsValid : (p : PeerId) → IsValid (nodes p).cache
unfolding program
nodes-IsValid p =
    elim (Bytes_discrete p (bytes "p")) as (λ d. IsValid (ite d holder new_node).cache) [
      | yes e ↦ put-IsValid new_node.cache new_node-IsValid a (some (record { addr = 0; len = 5 }))
      | no ne ↦ new_node-IsValid
    ]

abbrev connected : List PeerId
connected = bytes "q" ∷ bytes "p" ∷ []

-- The first peer is not reached; the others read the request as it was written.
abbrev links : Links
links p = ite (Bytes_discrete p (bytes "q")) none (some 2)

links-ReadsWhole : ReadsWhole links a
links-ReadsWhole p k =
    elim (Bytes_discrete p (bytes "q")) as (λ d. ite d none (some 2) ≡ some k → 1 < k) [
      | yes same ↦ λ e. absurd (cc)
      | no other ↦ λ e. let two : 2 ≡ k = cc in omega (arith, two)
    ]

request_file-first_held_example :
    request_file (ask nodes links) connected a ≡ first_held nodes links a connected
request_file-first_held_example =
    Transfer.request_file-first_held nodes links nodes-IsValid a (omega arith) links-ReadsWhole
      connected

abbrev sum : Bytes → Bytes
sum s = length s ∷ 1 ∷ s

abbrev created : Node
created = (create sum new_node a).0

abbrev handle : File
handle = (create sum new_node a).1

created-IsValid : IsValid created.cache
unfolding program
created-IsValid =
    put-IsValid new_node.cache new_node-IsValid a (some (record { addr = 0; len = 0 }))

handle-IsSlice : IsSlice created handle.view
unfolding program
handle-IsSlice = (omega arith, omega arith)

handle_empty : handle.view.len < 0 + length hello
unfolding program
handle_empty = omega arith

-- Written past the end of an empty file.
reading-write_example : after_write handle (write 1000 created handle 2 hello) ≡ (
    let new = patched 2 hello (contents created.arrays handle.view) in
    some (new, length hello, (handle.name, new)))
reading-write_example =
    Contents.reading-write 1000 created handle handle 2 hello created-IsValid handle-IsSlice refl
      (omega arith)

reading-setattr_example :
    after_setattr handle (setattr 1000 created handle (some 3))
    ≡ some (resized 3 (contents created.arrays handle.view))
reading-setattr_example =
    Resize.reading-setattr 1000 created handle handle 3 created-IsValid handle-IsSlice refl
      (omega arith)

-- One handle writes `hello`, another one that was opened before is closed: the file is empty again.
reading-flush_example :
    after_flush handle handle (write 1000 created handle 0 hello)
    ≡ some (contents created.arrays handle.view)
reading-flush_example =
    Handles.reading-flush 1000 created handle handle 0 hello created-IsValid handle-IsSlice refl
      handle_empty (omega arith)

looked_up-lookup_example :
    looked_up (lookup sum (ask nodes links) connected new_node a)
    ≡ own_or
        (first_held nodes links a connected)
        new_node
        (or_nil (find a (entries new_node.cache)))
looked_up-lookup_example =
    Handles.looked_up-lookup sum nodes links connected new_node a nodes-IsValid new_node-IsValid
      (omega arith) links-ReadsWhole

-- Another node still has the file.
looked_up-remove_again_example :
    (looked_up (lookup sum (ask nodes links) connected (remove created a).0 a)
      ≡ first_held nodes links a connected)
    × ((remove created a).1 ≡ is_some (or_nil (find a (entries created.cache))))
looked_up-remove_again_example =
    Found.looked_up-remove_again sum nodes links connected created a nodes-IsValid created-IsValid
      (omega arith) links-ReadsWhole
