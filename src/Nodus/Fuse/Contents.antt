-- ===== src/Nodus/Fuse/Contents.antt =====
-- The bytes of a file after `Write` of internal/nodus/fuse.go, read through any handle.
use crom_spirit_iso.Prelude.{
  ℕ, zero, suc, ◌+◌, ◌-◌, ◌≤◌, ◌<◌, true, false, Option, none, some, [], ◌∷◌, ◌++◌, ◌≡◌, refl, ◌∙◌,
  sym, ap, subst, arith, ltb, ◌==◌, ◌&&◌, dec_le, length, take, replicate, take_of_length-le,
  length-append, length-replicate, length-take,
}
use mathlib.Core.List.{append-nil}
use native.Mathlib.Numerals.{unary_clauses}
use crom_spirit_iso.Prelude.Text.{Bytes}
use crom_spirit_iso.Nodus.Slice.{Slice}
use crom_spirit_iso.Nodus.Cache.Valid.{IsValid}
use crom_spirit_iso.Nodus.Cache.Reads.{get-put_self}
use crom_spirit_iso.Nodus.Node.{Node, contents}
use crom_spirit_iso.Nodus.Fuse.{
  File, put, splice, write_array, grown, refreshed, read_all, room_for, write,
}

-- The bytes that a handle reads.
abbrev pub reading : File → Node → Bytes
reading g n = (read_all n g).2

-- A slice lies within an array that is allocated.
abbrev pub IsSlice : Node → Slice → Type 0
IsSlice n s = (s.len ≤ length (n.arrays s.addr)) × (s.addr < n.fresh_array)

take-splice :
    (offset m : ℕ) (b a : Bytes)
    → offset + length b ≤ m
    → m ≤ length a
    → take m (splice offset b a) ≡ splice offset b (take m a)
take-splice zero m [] a h h' = refl
take-splice zero zero (x ∷ b) a h h' = absurd (omega (arith, h))
take-splice zero (suc m) (x ∷ b) [] h h' = absurd (omega (arith, h'))
take-splice zero (suc m) (x ∷ b) (y ∷ a) h h' =
    simp unary_clauses
      (ap (λ l. x ∷ l) (take-splice zero m b a (omega (arith, h)) (omega (arith, h'))))
take-splice (suc o) zero b a h h' = absurd (omega (arith, h))
take-splice (suc o) (suc m) b [] h h' = absurd (omega (arith, h'))
take-splice (suc o) (suc m) b (y ∷ a) h h' =
    let e : suc o + length b ≡ suc (o + length b) = omega arith in
    rw e (ap (λ l. y ∷ l) (take-splice o m b a (omega (arith, h)) (omega (arith, h'))))

pub length-splice :
    (offset : ℕ) (b a : Bytes)
    → offset + length b ≤ length a
    → length (splice offset b a) ≡ length a
length-splice zero [] a h = refl
length-splice zero (x ∷ b) [] h = absurd (omega (arith, h))
length-splice zero (x ∷ b) (y ∷ a) h =
    simp unary_clauses (ap suc (length-splice zero b a (omega (arith, h))))
length-splice (suc o) b [] h = absurd (omega (arith, h))
length-splice (suc o) b (y ∷ a) h =
    let e : suc o + length b ≡ suc (o + length b) = omega arith in
    rw e (ap suc (length-splice o b a (omega (arith, h))))

-- A file's bytes with zeros after them, up to a length.
abbrev pub padded : ℕ → Bytes → Bytes
padded size old = old ++ replicate (size - length old) 0

pub length-contents : (n : Node) (s : Slice) → IsSlice n s → length (contents n.arrays s) ≡ s.len
length-contents n s h = let h0 = h.0 in omega (arith, length-take s.len (n.arrays s.addr))

-- What a handle of the same name reads after its slice was put in the cache.
pub reading-put :
    (n : Node) (g : File) (s : Slice)
    → IsValid n.cache
    → reading g (put n g.name s) ≡ contents n.arrays s
unfolding read_all
reading-put n g s v =
    ap (λ d. contents n.arrays (refreshed g d).view) (get-put_self n.cache g.name (some s) v)

same_array :
    (n : Node) (addr offset : ℕ) (b : Bytes)
    → (write_array n addr offset b).arrays addr ≡ splice offset b (n.arrays addr)
same_array n addr offset b = ground arith

pub room_for-grown :
    (n : Node) (s : Slice) (size : ℕ) → s.len < size → room_for n s size ≡ grown n s size
unfolding room_for
room_for-grown n s size h = let e : ltb s.len size ≡ true = ground arith in rw e refl

pub room_for-same : (n : Node) (s : Slice) (size : ℕ) → size ≤ s.len → room_for n s size ≡ (n, s)
unfolding room_for
room_for-same n s size h = let e : ltb s.len size ≡ false = ground arith in rw e refl

splice-fits :
    (offset : ℕ) (b old : Bytes)
    → length (padded (offset + length b) old)
      ≡ length (splice offset b (padded (offset + length b) old))
splice-fits offset b old = sym (
    length-splice offset b (padded (offset + length b) old) (
      omega (
        arith,
        length-append old (replicate (offset + length b - length old) 0),
        length-replicate {A = ℕ} (offset + length b - length old) 0,
      )))

-- What the array of the slice that `Write` copies into holds.
room_contents :
    (n : Node) (s : Slice) (offset : ℕ) (b : Bytes)
    → IsSlice n s
    → let (n1, t) = room_for n s (offset + length b) in
      contents (write_array n1 t.addr offset b).arrays t
      ≡ splice offset b (padded (offset + length b) (contents n.arrays s))
room_contents n s offset b h =
    let h0 = h.0 in
    let len = length-contents n s h in
    elim (dec_le (offset + length b) s.len) [
      | yes le ↦
          let none_more : offset + length b - length (contents n.arrays s) ≡ 0 =
            omega (arith, le) in
          rw (room_for-same n s (offset + length b) le, same_array n s.addr offset b, none_more)
            (take-splice offset s.len b (n.arrays s.addr) le h.0
              ∙ ap (splice offset b) (sym (append-nil (contents n.arrays s))))
      | no gt ↦
          let new_len = offset + length b in
          let more : new_len - s.len ≡ new_len - length (contents n.arrays s) = omega arith in
          let self : (n.fresh_array == n.fresh_array) ≡ true = ground arith in
          rw (room_for-grown n s new_len (omega arith), self, more)
            (take_of_length-le (length (padded new_len (contents n.arrays s)))
              (splice offset b (padded new_len (contents n.arrays s)))
              (omega (arith, splice-fits offset b (contents n.arrays s))))
    ]

pub room_for-cache : (n : Node) (s : Slice) (size : ℕ) → (room_for n s size).0.cache ≡ n.cache
unfolding room_for
room_for-cache n s size = ground arith

-- What a handle reads after a write, the size in the reply, and the name and the bytes at that time of
-- what is to be broadcast.
abbrev pub after_write :
    File → Option (Node × File × ℕ × (Bytes × Slice)) → Option (Bytes × ℕ × (Bytes × Bytes))
after_write g none = none
after_write g (some r) = some (reading g r.0, r.2, (r.3.0, contents r.0.arrays r.3.1))

-- A file's bytes with others written over them, and zeros in a gap before these.
abbrev pub patched : ℕ → Bytes → Bytes → Bytes
patched offset b old = splice offset b (padded (offset + length b) old)

-- A write within the limit of memory succeeds and replies the number of bytes written. Every handle
-- of the same name then reads the old bytes of the writing handle with the new ones over them. The
-- goroutine that is started to broadcast the file has its name, and a slice that has these bytes then.
pub reading-write :
    (limit : ℕ) (n : Node) (f g : File) (offset : ℕ) (b : Bytes)
    → IsValid n.cache
    → IsSlice n f.view
    → g.name ≡ f.name
    → offset + length b ≤ limit
    → after_write g (write limit n f offset b) ≡ (
        let new = patched offset b (contents n.arrays f.view) in
        some (new, length b, (f.name, new)))
unfolding write
reading-write limit n f g offset b v inside same fits =
    let new_len = offset + length b in
    let (n1, s) = room_for n f.view new_len in
    let n2 = write_array n1 s.addr offset b in
    let new = patched offset b (contents n.arrays f.view) in
    let enough : (ltb f.view.len new_len && ltb limit new_len) ≡ false = ground arith in
    let right = room_contents n f.view offset b inside in
    let v2 : IsValid n2.cache = subst IsValid (sym (room_for-cache n f.view new_len)) v in
    let read : reading g (put n2 f.name s) ≡ new =
      subst (λ k. reading g (put n2 k s) ≡ contents n2.arrays s) same (reading-put n2 g s v2)
      ∙ right in
    rw enough (
      ap (λ r. some (r, length b, (f.name, contents n2.arrays s))) read
      ∙ ap (λ r. some (new, length b, (f.name, r))) right)

-- The file itself has these bytes after the write, under its name.
pub contents-write :
    (limit : ℕ) (n : Node) (f : File) (offset : ℕ) (b : Bytes)
    → IsSlice n f.view
    → offset + length b ≤ limit
    → (r : Node × File × ℕ × (Bytes × Slice)) × (write limit n f offset b ≡ some r)
      × (r.1.name ≡ f.name)
      × (r.3 ≡ (r.1.name, r.1.view))
      × (contents r.0.arrays r.1.view ≡ patched offset b (contents n.arrays f.view))
unfolding write
contents-write limit n f offset b inside fits =
    let new_len = offset + length b in
    let enough : (ltb f.view.len new_len && ltb limit new_len) ≡ false = ground arith in
    let (n1, s) = room_for n f.view new_len in
    let n3 = put (write_array n1 s.addr offset b) f.name s in
    let r : Node × File × ℕ × (Bytes × Slice) =
      (n3, record f { view = s }, length b, (f.name, s)) in
    (r, rw enough refl, refl, refl, room_contents n f.view offset b inside)
