-- ===== src/Nodus/System/Moves.antt =====
-- What each event of a node of internal/nodus in use does to its memory, its cache and its open files.
use crom_spirit_iso.Prelude.{
  ℕ, zero, suc, Option, none, some, List, [], ◌∷◌, ◌≡◌, subst, sym, ap, All, Option-cases, inl, inr,
  get_elem?, set,
}
use crom_spirit_iso.Prelude.Text.{Bytes}
use crom_spirit_iso.Nodus.Cache.{Key}
use crom_spirit_iso.Nodus.Node.{
  Node, Served, file, nothing, panicked, handle_file_request, handle_file_broadcast,
  connect_to_peer,
}
use crom_spirit_iso.Nodus.Fuse.{File, lookup, create, remove, read_all, write, flush, setattr}
use crom_spirit_iso.Nodus.System.{
  System, Event, looked_up, listed, created, removed, read, written, flushed, resized, requested,
  broadcast, connected, opened, after_change, on_file, written_file, after_request, after_broadcast,
  step,
}
use crom_spirit_iso.Nodus.System.Grows.{Owner, IsOwn, IsSoundNode, Grows, Grows-refl}
use crom_spirit_iso.Nodus.System.Streams.{
  GrowsTo, handle_file_request-Grows, handle_file_broadcast-Grows, connect_to_peer-Grows,
}
use crom_spirit_iso.Nodus.System.Handlers.{
  GrowsBy, Opens, Changes, lookup-Opens, create-Yields, remove-Grows, read_all-Yields, flush-Yields,
  write-Changes, setattr-Changes,
}

-- Every open file has a slice of an array that was made for a file of its name.
abbrev pub FilesOwn : Node → Owner → List File → Type 0
FilesOwn n own = All (λ f. IsOwn n own f.name f.view)

pub record IsSound (s : System) : Type 0 where
  pub own : Owner
  pub node_sound : IsSoundNode s.node own
  pub files_inside : FilesOwn s.node own s.files

All-kept :
    (w : Key) (n n' : Node) (own own' : Owner)
    → Grows w n own n' own'
    → (fs : List File) → FilesOwn n own fs
    → FilesOwn n' own' fs
All-kept w n n' own own' g [] h = tt
All-kept w n n' own own' g (f ∷ fs) h =
    (g.kept f.name f.view h.0, All-kept w n n' own own' g fs h.1)

All-set :
    (n : Node) (own : Owner) (fs : List File) (i : ℕ) (f : File)
    → IsOwn n own f.name f.view
    → FilesOwn n own fs
    → FilesOwn n own (set fs i f)
All-set n own [] i f inside h = tt
All-set n own (g ∷ fs) zero f inside h = (inside, h.1)
All-set n own (g ∷ fs) (suc i) f inside h = (h.0, All-set n own fs i f inside h.1)

pub file_inside :
    (n : Node) (own : Owner) (fs : List File) (i : ℕ) (f : File)
    → FilesOwn n own fs
    → get_elem? fs i ≡ some f
    → IsOwn n own f.name f.view
file_inside n own [] i f h at = absurd (cc)
file_inside n own (g ∷ fs) zero f h at =
    let same : g ≡ f = cc in subst (λ k. IsOwn n own k.name k.view) same h.0
file_inside n own (g ∷ fs) (suc i) f h at = file_inside n own fs i f h.1 at

-- A later state of a system, unless it is gone, in which the bytes of the files with another name than
-- `w` are as they were.
abbrev pub Moves : Key → (s : System) → Owner → Option System → Type 0
Moves w s own none = Unit
Moves w s own (some s') =
    (own' : Owner) × Grows w s.node own s'.node own' × FilesOwn s'.node own' s'.files

-- If the event is a write to an open file, that file has this name.
abbrev pub WritesOnly : Key → System → Event → Type 0
WritesOnly w s (written peers i offset b) = (f : File) → get_elem? s.files i ≡ some f → f.name ≡ w
WritesOnly w s e = Unit

module _ (w : Key) (s : System) (h : IsSound s) where
  moved : (n : Node) → GrowsBy w s.node h.own n → Moves w s h.own (some (record s { node = n }))
  moved n (own', g) = (own', g, All-kept w s.node n h.own own' g s.files h.files_inside)

  opened-Moves :
      (r : Node × Option File) → Opens w s.node h.own r → Moves w s h.own (some (opened r s))
  opened-Moves (n, none) g = moved n g
  opened-Moves (n, some f) (own', g, inside) =
      (own', g, (inside, All-kept w s.node n h.own own' g s.files h.files_inside))

  after_change-Moves :
      (i : ℕ) (r : Option (Node × File))
      → Changes w s.node h.own r
      → Moves w s h.own (after_change s i r)
  after_change-Moves i none g = tt
  after_change-Moves i (some (n, f)) (own', g, inside) = (
    own',
    g,
    All-set n own' s.files i f inside (All-kept w s.node n h.own own' g s.files h.files_inside),
  )

  on_file-Moves :
      (i : ℕ) (act : File → Option (Node × File))
      → ((f : File)
          → get_elem? s.files i ≡ some f
          → IsOwn s.node h.own f.name f.view
          → Changes w s.node h.own (act f))
      → Moves w s h.own (on_file s i act)
  on_file-Moves i act good = elim (Option-cases (get_elem? s.files i)) [
    | inl e ↦ rw e (h.own, Grows-refl w s.node h.own h.node_sound, h.files_inside)
    | inr (f, e) ↦ rw e (
        after_change-Moves i (act f)
          (good f e (file_inside s.node h.own s.files i f h.files_inside e)))
  ]

  after_request-Moves :
      (r : Node × Served) → GrowsBy w s.node h.own r.0 → Moves w s h.own (after_request s r)
  after_request-Moves (n, panicked) g = tt
  after_request-Moves (n, nothing) g = moved n g
  after_request-Moves (n, file b) g = moved n g

  after_broadcast-Moves :
      (limit : ℕ) (r : Option Node)
      → GrowsTo w s.node h.own r
      → Moves w s h.own (after_broadcast s r)
  after_broadcast-Moves limit none g = tt
  after_broadcast-Moves limit (some n) g = moved n g

  pub step-Moves :
      (sha256 : Bytes → Bytes) (limit : ℕ) (e : Event)
      → WritesOnly w s e
      → Moves w s h.own (step sha256 limit s e)
  unfolding step
  step-Moves sha256 limit (looked_up exchange peers k) mine =
      opened-Moves (lookup sha256 exchange peers s.node k)
        (lookup-Opens w s.node h.own h.node_sound sha256 exchange peers k)
  step-Moves sha256 limit listed mine =
      (h.own, Grows-refl w s.node h.own h.node_sound, h.files_inside)
  step-Moves sha256 limit (created k) mine =
      let (n, f) = create sha256 s.node k in
      opened-Moves (n, some f) (create-Yields sha256 w s.node h.own h.node_sound k)
  step-Moves sha256 limit (removed k) mine =
      moved (remove s.node k).0 (h.own, remove-Grows w s.node h.own k h.node_sound)
  step-Moves sha256 limit (read i) mine =
      on_file-Moves i (λ f. let r = read_all s.node f in some (r.0, r.1))
        (λ f e inside. read_all-Yields w s.node h.own h.node_sound f inside)
  step-Moves sha256 limit (written peers i offset b) mine =
      on_file-Moves i (λ f. written_file (write limit s.node f offset b))
        (λ f e inside. write-Changes limit w s.node h.own h.node_sound f offset b (mine f e) inside)
  step-Moves sha256 limit (flushed i) mine =
      on_file-Moves i (λ f. some (flush s.node f, f))
        (λ f e inside. flush-Yields w s.node h.own h.node_sound f inside)
  step-Moves sha256 limit (resized i size) mine =
      on_file-Moves i (λ f. setattr limit s.node f size)
        (λ f e inside. setattr-Changes limit w s.node h.own h.node_sound f size inside)
  step-Moves sha256 limit (requested chunk) mine =
      after_request-Moves (handle_file_request s.node chunk)
        (handle_file_request-Grows limit w s.node h.own h.node_sound chunk)
  step-Moves sha256 limit (broadcast chunk stream) mine =
      after_broadcast-Moves limit (handle_file_broadcast limit s.node chunk stream)
        (handle_file_broadcast-Grows limit w s.node h.own h.node_sound chunk stream)
  step-Moves sha256 limit (connected up peer addrs) mine =
      moved (connect_to_peer s.node up peer addrs)
        (connect_to_peer-Grows limit w s.node h.own h.node_sound up peer addrs)

abbrev pub name_of : Option File → Option Key
name_of none = none
name_of (some f) = some f.name

-- The name of the file that an event writes to, if it does.
abbrev pub written_to : System → Event → Option Key
written_to s (written peers i offset b) = name_of (get_elem? s.files i)
written_to s e = none

abbrev pub or_name : Key → Option Key → Key
or_name other none = other
or_name other (some k) = k

pub written_to-WritesOnly :
    (other : Key) (s : System) (e : Event) → WritesOnly (or_name other (written_to s e)) s e
written_to-WritesOnly other s (written peers i offset b) =
    λ f there. sym (ap (λ o. or_name other (name_of o)) there)
written_to-WritesOnly other s (looked_up exchange peers k) = tt
written_to-WritesOnly other s listed = tt
written_to-WritesOnly other s (created k) = tt
written_to-WritesOnly other s (removed k) = tt
written_to-WritesOnly other s (read i) = tt
written_to-WritesOnly other s (flushed i) = tt
written_to-WritesOnly other s (resized i size) = tt
written_to-WritesOnly other s (requested chunk) = tt
written_to-WritesOnly other s (broadcast chunk stream) = tt
written_to-WritesOnly other s (connected up peer addrs) = tt
