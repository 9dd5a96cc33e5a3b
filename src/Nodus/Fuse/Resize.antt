-- ===== src/Nodus/Fuse/Resize.antt =====
-- The bytes of a file after `Setattr` of internal/nodus/fuse.go, read through any handle.
use crom_spirit_iso.Prelude.{
  ℕ, zero, suc, ◌-◌, ◌≤◌, true, false, Option, none, some, [], ◌∷◌, ◌++◌, ◌≡◌, refl, ◌∙◌, sym, ap,
  subst, arith, ltb, ◌==◌, ◌&&◌, dec_le, length, take, replicate, take_of_length-le,
}
use mathlib.Core.List.{append-nil}
use crom_spirit_iso.Prelude.Text.{Bytes}
use crom_spirit_iso.Nodus.Slice.{Slice}
use crom_spirit_iso.Nodus.Cache.Valid.{IsValid}
use crom_spirit_iso.Nodus.Node.{Node, contents}
use crom_spirit_iso.Nodus.Fuse.{File, put, resize, setattr}
use crom_spirit_iso.Nodus.Fuse.Contents.{reading, IsSlice, padded, length-contents, reading-put}

take-take : (m k : ℕ) (a : Bytes) → m ≤ k → take m (take k a) ≡ take m a
take-take zero k a h = refl
take-take (suc m) zero a h = absurd (omega (arith, h))
take-take (suc m) (suc k) [] h = refl
take-take (suc m) (suc k) (x ∷ a) h = ap (λ l. x ∷ l) (take-take m k a (omega (arith, h)))

-- A file's bytes cut to a length, or with zeros after them up to it.
abbrev pub resized : ℕ → Bytes → Bytes
resized size old = take size old ++ replicate (size - length old) 0

resized-le :
    (n : Node) (s : Slice) (size : ℕ)
    → IsSlice n s
    → size ≤ s.len
    → resized size (contents n.arrays s) ≡ take size (n.arrays s.addr)
resized-le n s size h le =
    let len = length-contents n s h in
    let no_more : size - length (contents n.arrays s) ≡ 0 = omega (arith, le) in
    rw no_more
      (append-nil (take size (contents n.arrays s)) ∙ take-take size s.len (n.arrays s.addr) le)

resize-contents :
    (n : Node) (s : Slice) (size : ℕ)
    → IsSlice n s
    → let (n1, t) = resize n s size in contents n1.arrays t ≡ resized size (contents n.arrays s)
unfolding resize
resize-contents n s size h =
    let len = length-contents n s h in
    elim (dec_le size s.len) [
      | yes le ↦ elim (dec_le s.len size) [
        | yes ge ↦
            let cut : ltb size s.len ≡ false = ground arith in
            let grow : ltb s.len size ≡ false = ground arith in
            let even : s.len ≡ size = omega arith in
            rw (cut, grow)
              (ap (λ k. take k (n.arrays s.addr)) even ∙ sym (resized-le n s size h le))
        | no lt ↦
            let cut : ltb size s.len ≡ true = ground arith in
            rw cut (sym (resized-le n s size h le))
      ]
      | no gt ↦
          let cut : ltb size s.len ≡ false = ground arith in
          let grow : ltb s.len size ≡ true = ground arith in
          let self : (n.fresh_array == n.fresh_array) ≡ true = ground arith in
          let more : size - s.len ≡ size - length (contents n.arrays s) = omega arith in
          let old : take size (contents n.arrays s) ≡ contents n.arrays s =
            take_of_length-le size (contents n.arrays s) (omega arith) in
          rw (cut, grow, self, more, old)
            (take_of_length-le (length (padded size (contents n.arrays s)))
              (padded size (contents n.arrays s)) (omega arith))
    ]

resize-cache : (n : Node) (s : Slice) (size : ℕ) → (resize n s size).0.cache ≡ n.cache
unfolding resize
resize-cache n s size = ground arith

abbrev pub after_setattr : File → Option (Node × File) → Option Bytes
after_setattr g none = none
after_setattr g (some r) = some (reading g r.0)

-- A new size within the limit of memory succeeds, and every handle of the same name then reads the
-- old bytes of the changed handle cut to that size, or with zeros after them up to it.
pub reading-setattr :
    (limit : ℕ) (n : Node) (f g : File) (size : ℕ)
    → IsValid n.cache
    → IsSlice n f.view
    → g.name ≡ f.name
    → size ≤ limit
    → after_setattr g (setattr limit n f (some size))
      ≡ some (resized size (contents n.arrays f.view))
unfolding setattr
reading-setattr limit n f g size v inside same fits =
    let (n1, s) = resize n f.view size in
    let enough : (ltb f.view.len size && ltb limit size) ≡ false = ground arith in
    let right = resize-contents n f.view size inside in
    let v1 : IsValid n1.cache = subst IsValid (sym (resize-cache n f.view size)) v in
    let read : reading g (put n1 f.name s) ≡ resized size (contents n.arrays f.view) =
      subst (λ k. reading g (put n1 k s) ≡ contents n1.arrays s) same (reading-put n1 g s v1)
      ∙ right in
    rw enough (ap some read)
