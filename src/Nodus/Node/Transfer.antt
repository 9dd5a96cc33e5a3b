-- ===== src/Nodus/Node/Transfer.antt =====
-- What one node of internal/nodus/node.go sends, another one receives.
use crom_spirit_iso.Prelude.{
  ℕ, ◌-◌, ◌≤◌, ◌<◌, false, Option, none, some, List, [], ◌∷◌, ◌++◌, ◌≡◌, refl, ◌∙◌, ap, subst,
  arith, ltb, ◌==◌, length, min, Option-cases, inl, inr, take, replicate, sign_bit,
  take_of_length-le, take-length-append, length-append,
}
use mathlib.Core.List.{append-nil}
use crom_spirit_iso.Prelude.Text.{Bytes, bytes}
use crom_spirit_iso.Nodus.Slice.{Blob}
use crom_spirit_iso.Nodus.Cache
use crom_spirit_iso.Nodus.Cache.{Key, Cache, get}
use crom_spirit_iso.Nodus.Cache.Valid.{IsValid, entries}
use crom_spirit_iso.Nodus.Cache.Methods.{or_nil, find}
use crom_spirit_iso.Nodus.Cache.Reads.{get-find}
use crom_spirit_iso.Nodus.Node.{
  Node, contents, allocate, broadcast_header, read_full, receive_file, handle_file_broadcast,
  handle_file_request, PeerId, Exchange, all_read, no_read, no_stream, try_peers, request_file,
  exchanged, request_file_from_peer, Served, file, nothing, panicked, served,
}
use crom_spirit_iso.Nodus.Node.Parse.{IsWord, parse_header-append}

-- The node after a file with these bytes was received into a new array.
abbrev pub stored : Node → Bytes → Bytes → Node
stored n name b =
    let (n', s) = allocate n b in record n' { cache = Cache.put n.cache name (some s) }

read_full-append :
    (early late : Bytes)
    → read_full (length (early ++ late)) late ≡ late ++ replicate (length early) 0
read_full-append early late =
    let e : length (early ++ late) - length late ≡ length early =
      omega (arith, length-append early late) in
    rw
      (e, take_of_length-le (length (early ++ late)) late (omega (arith, length-append early late)))

-- A broadcast of a file whose name is not empty, is valid UTF-8 and has no white space, and which
-- fits an int64 and the limit of memory. The first read returns the header with the first bytes
-- `early` of the file, and `late` is left on the stream. The file is stored under its name with the bytes of `late`, and a zero for each
-- byte of `early`: what came in with the header is lost.
pub handle_file_broadcast_lem :
    (limit : ℕ) (n : Node) (b : ℕ) (t early late : Bytes)
    → IsWord (b ∷ t)
    → length (early ++ late) < sign_bit
    → length (early ++ late) ≤ limit
    → handle_file_broadcast limit n
        (some (broadcast_header (b ∷ t) (length (early ++ late)) ++ early))
        late
      ≡ some (stored n (b ∷ t) (late ++ replicate (length early) 0))
unfolding handle_file_broadcast receive_file
handle_file_broadcast_lem limit n b t early late h small fits =
    rw (parse_header-append b t (length (early ++ late)) early h small) (
      let e : ltb limit (length (early ++ late)) ≡ false = ground arith in
      rw e (ap (λ r. some (stored n (b ∷ t) r)) (read_full-append early late)))

-- A broadcast whose header comes in alone is stored whole, if the name is not empty, is valid UTF-8
-- and has no white space, and the file fits an int64 and the limit of memory.
pub handle_file_broadcast-send :
    (limit : ℕ) (n : Node) (b : ℕ) (t content : Bytes)
    → IsWord (b ∷ t)
    → length content < sign_bit
    → length content ≤ limit
    → handle_file_broadcast limit n (some (broadcast_header (b ∷ t) (length content))) content
      ≡ some (stored n (b ∷ t) content)
handle_file_broadcast-send limit n b t content h small fits =
    subst (λ r. handle_file_broadcast limit n (some r) content ≡ some (stored n (b ∷ t) content))
      (append-nil (broadcast_header (b ∷ t) (length content)))
      (handle_file_broadcast_lem limit n b t [] content h small fits
        ∙ ap (λ r. some (stored n (b ∷ t) r)) (append-nil content))

-- A node's answer to what it reads of a request.
abbrev pub answered : Served → Exchange
answered (file b) = all_read b
answered nothing = all_read []
answered panicked = no_read

-- What becomes of the exchange with each peer: none if its stream cannot be opened, or how many bytes
-- the peer's `Read` of the request returns, of at most 1024.
abbrev pub Links : Type 0
Links = PeerId → Option ℕ

abbrev pub asked_over : Option ℕ → Node → Bytes → Exchange
asked_over none n request = no_stream
asked_over (some k) n request =
    answered (handle_file_request n (some (take (min k 1024) request))).1

-- Nodes that answer each other over these links.
abbrev pub ask : (PeerId → Node) → Links → PeerId → Bytes → Exchange
ask nodes links p request = asked_over (links p) (nodes p) request

-- Every peer that is reached reads the whole request, which is a name and a newline, at once.
abbrev pub ReadsWhole : Links → Bytes → Type 0
ReadsWhole links name = (p : PeerId) (k : ℕ) → links p ≡ some k → length name < k

-- The bytes that a node has of a file; none if it has no such file, or an empty one.
abbrev held_of : Node → Blob → Bytes
held_of n none = []
held_of n (some s) = contents n.arrays s

abbrev pub held : Node → Key → Bytes
held n name = held_of n (or_nil (find name (entries n.cache)))

abbrev pub reached_held : Option ℕ → Bytes → Bytes
reached_held none b = []
reached_held (some k) b = b

-- The first of these peers that is reached and has a file of that name that is not empty.
abbrev pub first_held : (PeerId → Node) → Links → Key → List PeerId → Option Bytes
first_held nodes links name [] = none
first_held nodes links name (p ∷ ps) = elim (reached_held (links p) (held (nodes p) name)) [
  | [] ↦ first_held nodes links name ps
  | b ∷ s ↦ some (b ∷ s)
]

handle_file_request-newline :
    (n : Node) (name : Bytes)
    → (handle_file_request n (some (name ++ bytes "\n"))).1 ≡ served n (get n.cache name).1
unfolding handle_file_request
handle_file_request-newline n [] = refl
handle_file_request-newline n (b ∷ s) =
    let e : length (s ++ bytes "\n") ≡ length (b ∷ s) =
      omega (arith, length-append s (bytes "\n")) in
    ap (λ k. served n (get n.cache k).1)
      (ap (λ k. take k (b ∷ s ++ bytes "\n")) e ∙ take-length-append (b ∷ s) (bytes "\n"))

exchanged-served : (n : Node) (d : Blob) → exchanged (answered (served n d)) ≡ some (held_of n d)
exchanged-served n none = refl
exchanged-served n (some s) = refl

module _ (nodes : PeerId → Node) (links : Links) (valid : (p : PeerId) → IsValid (nodes p).cache)
    (name : Key) (short : length name < 1024) (reads : ReadsWhole links name) where
  node_answer :
      (p : PeerId) (k : ℕ)
      → length name < k
      → exchanged (asked_over (some k) (nodes p) (name ++ bytes "\n")) ≡ some (held (nodes p) name)
  node_answer p k enough =
      let whole : take (min k 1024) (name ++ bytes "\n") ≡ name ++ bytes "\n" =
        take_of_length-le (min k 1024) (name ++ bytes "\n")
          (omega (arith, length-append name (bytes "\n"))) in
      ap (λ r. exchanged (answered (handle_file_request (nodes p) (some r)).1)) whole
      ∙ ap (λ r. exchanged (answered r)) (handle_file_request-newline (nodes p) name)
      ∙ exchanged-served (nodes p) (get (nodes p).cache name).1
      ∙ ap (λ d. some (held_of (nodes p) d)) (get-find (nodes p).cache name (valid p))

  peer_lost : (p : PeerId) → links p ≡ none → request_file_from_peer (ask nodes links) p name ≡ none
  unfolding request_file_from_peer
  peer_lost p lost = ap (λ l. exchanged (asked_over l (nodes p) (name ++ bytes "\n"))) lost

  peer_answer :
      (p : PeerId) (k : ℕ)
      → links p ≡ some k
      → request_file_from_peer (ask nodes links) p name ≡ some (held (nodes p) name)
  unfolding request_file_from_peer
  peer_answer p k up =
      ap (λ l. exchanged (asked_over l (nodes p) (name ++ bytes "\n"))) up
      ∙ node_answer p k (reads p k up)

  try_peers-first_held :
      (ps : List PeerId) → try_peers (ask nodes links) ps name ≡ first_held nodes links name ps
  unfolding try_peers
  try_peers-first_held [] = refl
  try_peers-first_held (p ∷ ps) = elim (Option-cases (links p)) [
    | inl lost ↦ ground (arith, lost, peer_lost p lost, try_peers-first_held ps)
    | inr (k, up) ↦ ground (arith, up, peer_answer p k up, try_peers-first_held ps)
  ]

  -- Between nodes with valid caches, for a name that the request buffer holds, and if each peer that
  -- is reached reads the whole request at once, a requested file is the one of the first connected
  -- peer that is reached and has it and whose file is not empty; there is an error if there is no such
  -- peer.
  pub request_file-first_held :
      (connected : List PeerId)
      → request_file (ask nodes links) connected name ≡ first_held nodes links name connected
  unfolding request_file
  request_file-first_held [] = refl
  request_file-first_held (p ∷ ps) =
      let some_peer : (length (p ∷ ps) == 0) ≡ false = ground arith in
      rw some_peer (try_peers-first_held (p ∷ ps))
