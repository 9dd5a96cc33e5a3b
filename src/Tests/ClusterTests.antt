-- ===== src/Tests/ClusterTests.antt =====
-- Two nodes of internal/nodus, on one of which a file is created and then written.
use crom_spirit_iso.Prelude.{◌≡◌, ◌≤◌, refl, true, List, [], ◌∷◌, ◌++◌, some, arith, length}
use crom_spirit_iso.Prelude.Text.{Bytes, Bytes_discrete, bytes}
use crom_spirit_iso.Prelude.Numbers.{decimal}
use crom_spirit_iso.Nodus.Cache.{Key}
use crom_spirit_iso.Nodus.Node.{
  new_node, PeerId, Exchange, no_stream, broadcast_file, broadcast_header, send_file,
}
use crom_spirit_iso.Nodus.Node.Parse.{IsWord, no_more, rune_1}
use crom_spirit_iso.Nodus.Fuse.{File, create, write, room_for}
use crom_spirit_iso.Nodus.System
use crom_spirit_iso.Nodus.System.{System, started, created, written}
use crom_spirit_iso.Nodus.Cluster.{Event, at, goes, delivered, sent, step, reached}
use crom_spirit_iso.Nodus.Cluster.Delivery.{found_at, header_length}
use crom_spirit_iso.Nodus.Cluster.Untouched.{SparesAt}
use crom_spirit_iso.Nodus.Cluster.Replicas

program : Unit {0}
unfolding new_node create write room_for System.step broadcast_file broadcast_header send_file sent
    step reached Bytes_discrete decimal
program = tt

abbrev a : Key
a = bytes "a"

abbrev hello : Bytes
hello = bytes "hello"

abbrev p : PeerId
p = bytes "p"

abbrev q : PeerId
q = bytes "q"

abbrev sum : Bytes → Bytes
sum s = length s ∷ 1 ∷ s

abbrev asked : PeerId → Bytes → Exchange
asked r s = no_stream

abbrev once : List Event
once = at p (created a) ∷ []

abbrev file_a : File
file_a = (create sum new_node a).1

abbrev system : System
system = record { node = (create sum new_node a).0; files = file_a ∷ [] }

abbrev write_hello : Event
write_hello = at p (written (q ∷ []) 0 0 hello)

fits : header_length sum 1000 a hello ≤ 1024
unfolding program
fits = omega arith

runs : (reached sum 1000 once).systems p ≡ some system
unfolding program
runs = refl

a-IsWord : IsWord a
a-IsWord = rune_1 b'a' [] refl refl no_more

-- Another file is created at the writer before the goroutine runs.
abbrev meanwhile : List Event
meanwhile = at p (created (bytes "b")) ∷ []

writer : (s : System) × ((reached sum 1000 (meanwhile ++ write_hello ∷ once)).systems p ≡ some s)
unfolding program
writer = (_, refl)

no_write : SparesAt sum 1000 p a meanwhile (write_hello ∷ once)
unfolding program
no_write = (λ e. absurd (cc), tt)

found_at-written_example :
    found_at sum 1000 asked [] a (
      (reached sum 1000 (
          delivered 0 (header_length sum 1000 a hello)
          ∷ goes 0 true
          ∷ (meanwhile ++ write_hello ∷ once))).systems
        q)
    ≡ some hello
unfolding program
found_at-written_example =
    Replicas.found_at-written sum 1000 once meanwhile [] p q system writer.0 started 0 0 file_a b'a'
      [] hello [] [] 0 hello asked [] runs refl refl a-IsWord (omega arith) refl (omega arith)
      (omega arith) fits refl (refl, tt) tt writer.1 no_write refl

-- Two writes, whose messages are on the way to the other node.
abbrev twice : List Event
twice = goes 1 true ∷ at p (written (q ∷ []) 0 0 (bytes "w")) ∷ goes 0 true ∷ write_hello ∷ once

first : Replicas.IsOnWay sum 1000 (reached sum 1000 twice) 0 q a hello
unfolding program
first = (refl, omega arith, omega arith, omega arith)

second : Replicas.IsOnWay sum 1000 (reached sum 1000 twice) 1 q a (bytes "wello")
unfolding program
second = (refl, omega arith, omega arith, omega arith)

runs_twice : (reached sum 1000 twice).systems q ≡ some started
unfolding program
runs_twice = refl

found_at-order_example :
    let d_i = delivered 0 (header_length sum 1000 a hello) in
    let d_j = delivered 1 (header_length sum 1000 a (bytes "wello")) in
    (found_at sum 1000 asked [] a ((reached sum 1000 (d_j ∷ d_i ∷ twice)).systems q)
      ≡ some (bytes "wello"))
    × (found_at sum 1000 asked [] a ((reached sum 1000 (d_i ∷ d_j ∷ twice)).systems q) ≡ some hello)
found_at-order_example =
    Replicas.found_at-order sum 1000 twice q started 0 1 b'a' [] hello (bytes "wello") asked []
      runs_twice a-IsWord (ground arith) first second
