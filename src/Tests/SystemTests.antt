-- ===== src/Tests/SystemTests.antt =====
-- A node of internal/nodus on which a file is created twice, and written through the second handle.
use crom_spirit_iso.Prelude.{
  ◌≡◌, ◌≢◌, refl, Option, List, [], ◌∷◌, ◌++◌, some, get_elem?, arith, length,
}
use crom_spirit_iso.Prelude.Text.{Bytes, bytes}
use crom_spirit_iso.Nodus.Cache.{Key}
use crom_spirit_iso.Nodus.Node.{Node, new_node, contents}
use crom_spirit_iso.Nodus.Fuse.{
  File, create, write, room_for, setattr, resize, remove, remove_found,
}
use crom_spirit_iso.Nodus.Fuse.Contents.{patched}
use crom_spirit_iso.Nodus.System.{System, Event, created, written, resized, removed, step, reached}
use crom_spirit_iso.Nodus.System.Apart
use crom_spirit_iso.Nodus.System.Apart.{Spares}
use crom_spirit_iso.Nodus.System.Sound
use crom_spirit_iso.Nodus.System.Sound.{IsSoundIfAny}
use crom_spirit_iso.Nodus.System.Writes
use crom_spirit_iso.Nodus.System.Writes.{read_at}

program : Unit {0}
unfolding new_node create write room_for setattr resize remove remove_found step reached
program = tt

abbrev sum : Bytes → Bytes
sum s = length s ∷ 1 ∷ s

abbrev a : Bytes
a = bytes "a"

abbrev hello : Bytes
hello = bytes "hello"

abbrev twice : List Event
twice = created a ∷ created a ∷ []

abbrev once_created : Node × File
once_created = create sum new_node a

abbrev twice_created : Node × File
twice_created = create sum once_created.0 a

abbrev system : System
system = record { node = twice_created.0; files = twice_created.1 ∷ once_created.1 ∷ [] }

two_files : reached sum 1000 twice ≡ some system
unfolding program
two_files = refl

reached-IsSound_example : IsSoundIfAny (reached sum 1000 (written [] 0 2 hello ∷ twice))
reached-IsSound_example = Sound.reached-IsSound sum 1000 (written [] 0 2 hello ∷ twice)

read_at-written_example :
    (s : System) × (reached sum 1000 (written [] 0 2 hello ∷ twice) ≡ some s)
    × (read_at s 1 ≡ some (patched 2 hello (contents system.node.arrays twice_created.1.view)))
unfolding program
read_at-written_example =
    Writes.read_at-written sum 1000 twice system 0 1 twice_created.1 once_created.1 [] 2 hello
      two_files refl refl refl (omega arith)

-- Another file is created, written and truncated, and the first one is removed.
abbrev later : List Event
later = removed (bytes "a") ∷ resized 0 (some 1) ∷ written [] 0 0 hello ∷ created (bytes "b") ∷ []

abbrev all_events : List Event
all_events = later ++ written [] 0 2 hello ∷ twice

still_reached : (s : System) × (reached sum 1000 all_events ≡ some s)
unfolding program
still_reached = (_, refl)

before :
    (s : System) × (g : File) × (reached sum 1000 (written [] 0 2 hello ∷ twice) ≡ some s)
    × (get_elem? s.files 0 ≡ some g)
unfolding program
before = (_, _, refl, refl)

b_other : ◌≢◌ {A = Option Key} (some (bytes "b")) (some a)
b_other = λ e. absurd (cc)

spares : Spares sum 1000 before.1.name later (written [] 0 2 hello ∷ twice)
unfolding program before
spares = (λ e. absurd (cc), (λ e. absurd (cc), (b_other, (λ e. absurd (cc), tt))))

contents-apart_example :
    contents still_reached.0.node.arrays before.1.view ≡ contents before.0.node.arrays before.1.view
contents-apart_example =
    Apart.contents-apart sum 1000 later (written [] 0 2 hello ∷ twice) before.0 still_reached.0 0
      before.1 before.2 before.3 spares still_reached.1
