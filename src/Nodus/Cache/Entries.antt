-- ===== src/Nodus/Cache/Entries.antt =====
-- What the linked list of internal/nodus/cache.go holds, as a list of keys and values in order of
-- use, and how its operations act on that list.
use mathlib.Core.Option
use crom_spirit_iso.Prelude.{
  ℕ, ◌+◌, ◌<◌, true, false, List, [], ◌∷◌, ◌++◌, Option, none, some, ◌≡◌, refl, ite, arith, length,
  All,
}
use crom_spirit_iso.Prelude.Dict.{lookup, delete, Distinct}
use crom_spirit_iso.Prelude.Text.{Bytes_discrete}
use crom_spirit_iso.Nodus.Slice.{Blob, size}
use crom_spirit_iso.Nodus.Cache.{Key, CacheEntry, remove, contains, back, write}

-- The entries, most recently used first.
abbrev pub Entries : Type 0
Entries = List (Key × Blob)

-- The bytes that they hold.
abbrev pub total : Entries → ℕ
total [] = 0
total ((k, b) ∷ l) = size b + total l

pub total-append : (l m : Entries) → total (l ++ m) ≡ total l + total m
total-append [] m = omega arith
total-append ((k, b) ∷ l) m = omega (arith, total-append l m)

pub total-delete :
    (k : Key) (b : Blob) (l : Entries)
    → lookup Bytes_discrete k l ≡ some b
    → total (delete Bytes_discrete k l) + size b ≡ total l
unfolding lookup delete
total-delete k b [] h = cc
total-delete k b ((j, c) ∷ l) h = ground (arith, total-delete k b l)

pub All-remove {ℓ} : (P : ℕ → Type ℓ) (e : ℕ) (l : List ℕ) → All P l → All P (remove e l)
unfolding remove
All-remove P e [] h = h
All-remove P e (x ∷ l) h = ground (arith, All-remove P e l h.1)

pub length-remove : (e : ℕ) (l : List ℕ) → contains e l ≡ true → length (remove e l) + 1 ≡ length l
unfolding remove contains
length-remove e [] h = cc
length-remove e (x ∷ l) h = ground (arith, length-remove e l)

pub not-contains_fresh : (n : ℕ) (l : List ℕ) → All (λ i. i < n) l → contains n l ≡ false
unfolding contains
not-contains_fresh n [] h = refl
not-contains_fresh n (x ∷ l) h = ground (arith, not-contains_fresh n l h.1)

pub lt_of_contains : (n e : ℕ) (l : List ℕ) → contains e l ≡ true → All (λ i. i < n) l → e < n
unfolding contains
lt_of_contains n e [] h a = cc
lt_of_contains n e (x ∷ l) h a = ground (arith, lt_of_contains n e l)

pub All-lt_suc : (n : ℕ) (l : List ℕ) → All (λ i. i < n) l → All (λ i. i < n + 1) l
All-lt_suc n [] a = tt
All-lt_suc n (x ∷ l) a = (omega arith, All-lt_suc n l a.1)

pub contains-back : (e : ℕ) (l : List ℕ) → back l ≡ some e → contains e l ≡ true
unfolding back contains
contains-back e [] h = cc
contains-back e (x ∷ []) h = ground arith
contains-back e (x ∷ y ∷ l) h = ground (arith, contains-back e (y ∷ l) h)

module _ (cells : ℕ → CacheEntry) where
  abbrev pub entry_at : ℕ → Key × Blob
  entry_at i = ((cells i).key, (cells i).blob)

  abbrev pub view : List ℕ → Entries
  view [] = []
  view (i ∷ l) = entry_at i ∷ view l

  -- The cell of a key.
  unfoldable pub cell_of : Key → List ℕ → Option ℕ
  cell_of k [] = none
  cell_of k (i ∷ l) = ite (Bytes_discrete (cells i).key k) (some i) (cell_of k l)

  pub length-view : (l : List ℕ) → length (view l) ≡ length l
  length-view [] = refl
  length-view (i ∷ l) = omega (arith, length-view l)

  pub key-cell_of : (k : Key) (e : ℕ) (l : List ℕ) → cell_of k l ≡ some e → (cells e).key ≡ k
  unfolding cell_of
  key-cell_of k e [] h = cc
  key-cell_of k e (i ∷ l) h = ground (arith, key-cell_of k e l)

  pub lookup-view :
      (k : Key) (l : List ℕ)
      → lookup Bytes_discrete k (view l) ≡ Option.map (λ e. (cells e).blob) (cell_of k l)
  unfolding lookup cell_of
  lookup-view k [] = refl
  lookup-view k (i ∷ l) = ground (arith, lookup-view k l)

  pub contains-cell_of : (k : Key) (e : ℕ) (l : List ℕ) → cell_of k l ≡ some e → contains e l ≡ true
  unfolding cell_of contains
  contains-cell_of k e [] h = cc
  contains-cell_of k e (i ∷ l) h = ground (arith, contains-cell_of k e l)

  pub not-contains_of_none :
      (e : ℕ) (l : List ℕ) → cell_of (cells e).key l ≡ none → contains e l ≡ false
  unfolding cell_of contains
  not-contains_of_none e [] h = refl
  not-contains_of_none e (i ∷ l) h = ground (arith, not-contains_of_none e l)

  pub cell_of_contained :
      (e : ℕ) (l : List ℕ)
      → contains e l ≡ true
      → Distinct Bytes_discrete (view l)
      → cell_of (cells e).key l ≡ some e
  unfolding cell_of contains
  cell_of_contained e [] h d = cc
  cell_of_contained e (i ∷ l) h d =
      ground (arith, cell_of_contained e l, lookup-view (cells i).key l)

  pub view-remove :
      (k : Key) (e : ℕ) (l : List ℕ)
      → cell_of k l ≡ some e
      → view (remove e l) ≡ delete Bytes_discrete k (view l)
  unfolding cell_of remove delete
  view-remove k e [] h = cc
  view-remove k e (i ∷ l) h = ground (arith, view-remove k e l, key-cell_of k e l)

  pub cell_of-remove :
      (k j : Key) (e : ℕ) (l : List ℕ)
      → cell_of k l ≡ some e
      → Distinct Bytes_discrete (view l)
      → cell_of j (remove e l) ≡ ite (Bytes_discrete k j) none (cell_of j l)
  unfolding cell_of remove
  cell_of-remove k j e [] h d = cc
  cell_of-remove k j e (i ∷ l) h d =
      ground (arith, cell_of-remove k j e l, key-cell_of k e l, lookup-view (cells i).key l)

  -- The back of the list is the last entry, and `Remove` takes just that one off.
  pub view-back :
      (e : ℕ) (l : List ℕ)
      → back l ≡ some e
      → Distinct Bytes_discrete (view l)
      → view l ≡ view (remove e l) ++ entry_at e ∷ []
  unfolding back remove
  view-back e [] h d = cc
  view-back e (x ∷ []) h d = ground arith
  view-back e (x ∷ y ∷ l) h d = ground (
    arith,
    view-back e (y ∷ l) h d.1,
    contains-back e (y ∷ l) h,
    cell_of_contained e (y ∷ l),
    lookup-view (cells x).key (y ∷ l),
  )

-- A write to a cell that is not in the list.
pub view-write :
    (cells : ℕ → CacheEntry) (e : ℕ) (v : CacheEntry) (l : List ℕ)
    → contains e l ≡ false
    → view (write cells e v) l ≡ view cells l
unfolding contains
view-write cells e v [] h = refl
view-write cells e v (i ∷ l) h = ground (arith, view-write cells e v l)

pub cell_of-write :
    (cells : ℕ → CacheEntry) (e : ℕ) (v : CacheEntry) (k : Key) (l : List ℕ)
    → contains e l ≡ false
    → cell_of (write cells e v) k l ≡ cell_of cells k l
unfolding cell_of contains
cell_of-write cells e v k [] h = refl
cell_of-write cells e v k (i ∷ l) h = ground (arith, cell_of-write cells e v k l)
