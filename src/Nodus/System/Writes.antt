-- ===== src/Nodus/System/Writes.antt =====
-- A write to a node of internal/nodus in use, and what its open files then read.
use crom_spirit_iso.Prelude.{
  ℕ, zero, suc, ◌+◌, ◌≤◌, Option, none, some, List, [], ◌∷◌, ◌≡◌, refl, ◌∙◌, Bool, true, false,
  if◌then◌else◌, sym, ap, length, get_elem?, set,
}
use crom_spirit_iso.Prelude.Text.{Bytes}
use crom_spirit_iso.Nodus.Slice.{Slice}
use crom_spirit_iso.Nodus.Node.{Node, contents, PeerId}
use crom_spirit_iso.Nodus.Fuse.{File, write}
use crom_spirit_iso.Nodus.Fuse.Contents.{reading, patched, after_write, reading-write}
use crom_spirit_iso.Nodus.System.{System, Event, written, step, reached}
use crom_spirit_iso.Nodus.System.Moves.{file_inside}
use crom_spirit_iso.Nodus.System.Sound.{reached-IsSound_if}

-- What a read of an open file returns.
abbrev pub read_file : Option File → Node → Option Bytes
read_file none n = none
read_file (some f) n = some (reading f n)

abbrev pub read_at : System → ℕ → Option Bytes
read_at s j = read_file (get_elem? s.files j) s.node

-- An open file in another place, or the same one changed, keeps its name.
same_name :
    (fs : List File) (i j : ℕ) (f f' g : File)
    → get_elem? fs i ≡ some f
    → f'.name ≡ f.name
    → get_elem? fs j ≡ some g
    → (g' : File) × (get_elem? (set fs i f') j ≡ some g') × (g'.name ≡ g.name)
same_name [] i j f f' g at same other = absurd (cc)
same_name (x ∷ fs) zero zero f f' g at same other = (
  f',
  refl,
  let one : x ≡ g = cc in let two : x ≡ f = cc in same ∙ ap (λ o. o.name) (sym two ∙ one),
)
same_name (x ∷ fs) zero (suc j) f f' g at same other = (g, other, refl)
same_name (x ∷ fs) (suc i) zero f f' g at same other = (g, other, refl)
same_name (x ∷ fs) (suc i) (suc j) f f' g at same other = same_name fs i j f f' g at same other

-- A write that succeeds, with what a file then reads.
write_of_reading :
    (g : File) (o : Option (Node × File × ℕ × (Bytes × Slice))) (new : Bytes × ℕ × (Bytes × Bytes))
    → after_write g o ≡ some new
    → (r : Node × File × ℕ × (Bytes × Slice)) × (o ≡ some r) × (reading g r.0 ≡ new.0)
write_of_reading g none new h = absurd (cc)
write_of_reading g (some r) new h = (r, refl, cc)

reply_of_if :
    (panics : Bool) (reply r : Node × File × ℕ × (Bytes × Slice))
    → (if panics then none else some reply) ≡ some r
    → reply ≡ r
reply_of_if true reply r h = absurd (cc)
reply_of_if false reply r h = cc

write-name :
    (limit : ℕ) (n : Node) (f : File) (offset : ℕ) (b : Bytes)
    (r : Node × File × ℕ × (Bytes × Slice))
    → write limit n f offset b ≡ some r
    → r.1.name ≡ f.name
unfolding write
write-name limit n f offset b r h = ap (λ o. o.1.name) (sym (reply_of_if _ _ r h))

-- After any events, a write to an open file within the limit of memory succeeds, and every open file
-- of the same name then reads the old bytes of that file with the new ones over them.
pub read_at-written :
    (sha256 : Bytes → Bytes) (limit : ℕ) (es : List Event) (s : System) (i j : ℕ) (f g : File)
    (peers : List PeerId) (offset : ℕ) (b : Bytes)
    → reached sha256 limit es ≡ some s
    → get_elem? s.files i ≡ some f
    → get_elem? s.files j ≡ some g
    → g.name ≡ f.name
    → offset + length b ≤ limit
    → (s' : System) × (reached sha256 limit (written peers i offset b ∷ es) ≡ some s')
      × (read_at s' j ≡ some (patched offset b (contents s.node.arrays f.view)))
unfolding reached step
read_at-written sha256 limit es s i j f g peers offset b at here there same fits =
    let h = reached-IsSound_if sha256 limit es s at in
    let inside = (file_inside s.node h.own s.files i f h.files_inside here).0 in
    let new = patched offset b (contents s.node.arrays f.view) in
    let read_after = λ (k : File) (e : k.name ≡ f.name).
      reading-write limit s.node f k offset b h.node_sound.valid inside e fits in
    let (r, done, read) =
      write_of_reading g (write limit s.node f offset b) (new, length b, (f.name, new))
        (read_after g same) in
    let (g', found, name') =
      same_name s.files i j f r.1 g here (write-name limit s.node f offset b r done) there in
    let read' : reading g' r.0 ≡ new =
      let after : ◌≡◌ {A = Option (Bytes × ℕ × (Bytes × Bytes))}
          (some (reading g' r.0, r.2, (r.3.0, contents r.0.arrays r.3.1)))
          (some (new, length b, (f.name, new))) =
        ap (after_write g') (sym done) ∙ read_after g' (name' ∙ same) in
      cc in
    (
      record { node = r.0; files = set s.files i r.1 },
      rw (at, here, done) refl,
      rw (found, read') refl,
    )
