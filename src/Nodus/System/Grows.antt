-- ===== src/Nodus/System/Grows.antt =====
-- Later states of a node of internal/nodus, in which each slice that was in an allocated array still
-- is, and in which the cache is valid and holds only such slices, of arrays made for their file.
use crom_spirit_iso.Prelude.{
  ℕ, ◌+◌, ◌≤◌, ◌≡◌, ◌≢◌, ◌==◌, ◌∙◌, refl, sym, ap, take, none, some, [], ◌∷◌, arith, length,
  if◌then◌else◌,
}
use crom_spirit_iso.Prelude.Text.{Bytes}
use crom_spirit_iso.Nodus.Slice.{Slice}
use crom_spirit_iso.Nodus.Cache
use crom_spirit_iso.Nodus.Cache.{Key}
use crom_spirit_iso.Nodus.Cache.Valid.{IsValid, entries}
use crom_spirit_iso.Nodus.Cache.Entries.{Entries}
use crom_spirit_iso.Nodus.Cache.Methods.{get-IsValid, put-IsValid, delete_key-IsValid}
use crom_spirit_iso.Nodus.Cache.Holds.{Holds, Holds-get, Holds-put, Holds-delete_key}
use crom_spirit_iso.Nodus.Node.{Node, contents, allocate}
use crom_spirit_iso.Nodus.Fuse.{put, splice, write_array}
use crom_spirit_iso.Nodus.Fuse.Contents.{IsSlice, length-splice}

-- The name of the file that each array was made for.
abbrev pub Owner : Type 0
Owner = ℕ → Key

-- A slice in an allocated array, made for the file of this name.
abbrev pub IsOwn : Node → Owner → Key → Slice → Type 0
IsOwn n own k s = IsSlice n s × (own s.addr ≡ k)

pub record IsSoundNode (n : Node) (own : Owner) : Type 0 where
  pub valid : IsValid n.cache
  pub cached : Holds (IsOwn n own) (entries n.cache)

-- A later state of a node, which has kept all slices and their owners, and the bytes of those that
-- belong to another file than `w`.
pub record Grows (w : Key) (n : Node) (own : Owner) (n' : Node) (own' : Owner) : Type 0 where
  pub kept : (k : Key) (t : Slice) → IsOwn n own k t → IsOwn n' own' k t
  pub same :
      (k : Key) (t : Slice) → IsOwn n own k t → k ≢ w → contents n'.arrays t ≡ contents n.arrays t
  pub sound : IsSoundNode n' own'

Holds-mono :
    (P Q : Key → Slice → Type 0)
    → ((k : Key) (t : Slice) → P k t → Q k t)
    → (l : Entries) → Holds P l
    → Holds Q l
Holds-mono P Q f [] h = tt
Holds-mono P Q f ((k, none) ∷ l) h = (tt, Holds-mono P Q f l h.1)
Holds-mono P Q f ((k, some s) ∷ l) h = (f k s h.0, Holds-mono P Q f l h.1)

-- A change of the memory that keeps all slices.
kept-Grows :
    (w : Key) (n : Node) (own own' : Owner) (arrays : ℕ → Bytes) (fresh : ℕ)
    → let n' = record n { arrays = arrays; fresh_array = fresh } in
      ((k : Key) (t : Slice) → IsOwn n own k t → IsOwn n' own' k t)
      → ((k : Key) (t : Slice) → IsOwn n own k t → k ≢ w → arrays t.addr ≡ n.arrays t.addr)
      → IsSoundNode n own
      → Grows w n own n' own'
kept-Grows w n own own' arrays fresh kept same h = record {
  kept = kept;
  same = λ k t i other. ap (take t.len) (same k t i other);
  sound = record {
    valid = h.valid;
    cached =
        Holds-mono (IsOwn n own) (IsOwn (record n { arrays = arrays; fresh_array = fresh }) own')
          kept (entries n.cache) h.cached;
  };
}

-- The new array is made for a file.
abbrev pub owned_by : ℕ → Key → Owner → Owner
owned_by addr k own i = if i == addr then k else own i

pub allocate-Grows :
    (w : Key) (n : Node) (own : Owner) (k : Key) (b : Bytes)
    → IsSoundNode n own
    → Grows w n own (allocate n b).0 (owned_by n.fresh_array k own)
allocate-Grows w n own k b h =
    kept-Grows w n own (owned_by n.fresh_array k own)
      (λ i. if i == n.fresh_array then b else n.arrays i) (n.fresh_array + 1)
      (λ j t i. ground (arith, i)) (λ j t i other. ground (arith, i)) h

pub IsOwn-allocate :
    (n : Node) (own : Owner) (k : Key) (b : Bytes)
    → IsOwn (allocate n b).0 (owned_by n.fresh_array k own) k (allocate n b).1
IsOwn-allocate n own k b = ground arith

pub Grows-trans :
    {w : Key} {a b c : Node} {o p q : Owner} → Grows w a o b p → Grows w b p c q → Grows w a o c q
Grows-trans g h = record {
  kept = λ k t i. h.kept k t (g.kept k t i);
  same = λ k t i other. h.same k t (g.kept k t i) other ∙ g.same k t i other;
  sound = h.sound;
}

module _ (w : Key) (n : Node) (own : Owner) where
  pub put-Grows :
      (k : Key) (s : Slice) → IsSoundNode n own → IsOwn n own k s → Grows w n own (put n k s) own
  put-Grows k s h inside = record {
    kept = λ j t i. i;
    same = λ j t i other. refl;
    sound = record {
      valid = put-IsValid n.cache h.valid k (some s);
      cached = Holds-put (IsOwn n own) n.cache h.valid k h.cached (some s) inside;
    };
  }

  others_array :
      (addr offset : ℕ) (b : Bytes) (k : Key) (t : Slice)
      → own addr ≡ w
      → own t.addr ≡ k
      → k ≢ w
      → (write_array n addr offset b).arrays t.addr ≡ n.arrays t.addr
  others_array addr offset b k t mine its other =
      let elsewhere : t.addr ≢ addr = λ e. other (sym its ∙ ap own e ∙ mine) in
      ground (arith, elsewhere)

  pub write_array-Grows :
      (addr offset : ℕ) (b : Bytes)
      → offset + length b ≤ length (n.arrays addr)
      → own addr ≡ w
      → IsSoundNode n own
      → Grows w n own (write_array n addr offset b) own
  write_array-Grows addr offset b room mine h =
      kept-Grows w n own own
        (λ i. if i == addr then splice offset b (n.arrays addr) else n.arrays i) n.fresh_array
        (λ k t i. ground (arith, i, length-splice offset b (n.arrays addr) room))
        (λ k t i other. others_array addr offset b k t mine i.1 other) h

  pub get-Grows :
      (k : Key)
      → IsSoundNode n own
      → Grows w n own (record n { cache = (Cache.get n.cache k).0 }) own
  get-Grows k h = record {
    kept = λ j t i. i;
    same = λ j t i other. refl;
    sound = record {
      valid = get-IsValid n.cache h.valid k;
      cached = Holds-get (IsOwn n own) n.cache h.valid k h.cached;
    };
  }

  pub Grows-refl : IsSoundNode n own → Grows w n own n own
  Grows-refl h = record { kept = λ k t i. i; same = λ k t i other. refl; sound = h }

  pub delete_key-Grows :
      (k : Key)
      → IsSoundNode n own
      → Grows w n own (record n { cache = (Cache.delete_key n.cache k).0 }) own
  delete_key-Grows k h = record {
    kept = λ j t i. i;
    same = λ j t i other. refl;
    sound = record {
      valid = delete_key-IsValid n.cache h.valid k;
      cached = Holds-delete_key (IsOwn n own) n.cache h.valid k h.cached;
    };
  }
