-- ===== src/Nodus/Cache/Methods.antt =====
-- The methods of internal/nodus/cache.go on a valid cache: each keeps the invariant, and each is
-- an operation on the list of entries in order of use.
use crom_spirit_iso.Prelude.{
  ℕ, ◌+◌, ◌<◌, ◌≡◌, refl, ◌∙◌, sym, Option, none, some, Option-cases, inl, inr, Bool, true, false,
  ◌∷◌, arith, length, sign_bit, int64,
}
use crom_spirit_iso.Prelude.Dict.{lookup, delete}
use crom_spirit_iso.Prelude.Text.{Bytes_discrete}
use crom_spirit_iso.Nodus.Slice.{Blob, size}
use crom_spirit_iso.Nodus.Cache.{Key, Cache, new_cache, get, put, delete_key, clear, evict_loop}
use crom_spirit_iso.Nodus.Cache.Entries.{Entries, total, cell_of, lookup-view}
use crom_spirit_iso.Nodus.Cache.Valid.{IsValid, entries}
use crom_spirit_iso.Nodus.Cache.Steps.{
  unlink-IsValid, entries-unlink, moved-IsValid, entries-moved, put_update-IsValid,
  entries-put_update, put_new-IsValid, entries-put_new,
}
use crom_spirit_iso.Nodus.Cache.Evict.{
  evict_loop-IsValid, entries-evict_loop, kept, capacity-evict_loop, absent-evict_loop,
}

-- The abstract cache: its entries, most recently used first.
abbrev pub find : Key → Entries → Option Blob
find = lookup Bytes_discrete

abbrev pub without : Key → Entries → Entries
without = delete Bytes_discrete

-- What `Get` returns: nil for a key that is not there.
abbrev pub or_nil : Option Blob → Blob
or_nil none = none
or_nil (some b) = b

unfoldable pub spec_get : Key → Entries → Entries × Blob
spec_get k l = elim (find k l) [ none ↦ (l, none) | some b ↦ ((k, b) ∷ without k l, b) ]

unfoldable pub spec_put : ℕ → Key → Blob → Entries → Entries
spec_put cap k b l = elim (find k l) [
  | none ↦ (k, b) ∷ kept cap (size b) l
  | some _ ↦ (k, b) ∷ without k l
]

unfoldable pub spec_delete : Key → Entries → Entries × Bool
spec_delete k l = elim (find k l) [ none ↦ (l, false) | some _ ↦ (without k l, true) ]

pub new_cache-IsValid : (cap : ℕ) → IsValid (new_cache cap)
unfolding new_cache lookup cell_of
new_cache-IsValid cap = record {
  agree = λ k. refl;
  items_distinct = tt;
  distinct = tt;
  allocated = tt;
  counted = refl;
  accounted = refl;
}

module _ (c : Cache) (v : IsValid c) where
  pub clear-IsValid : IsValid (clear c)
  unfolding clear lookup cell_of
  clear-IsValid = record {
    agree = λ k. refl;
    items_distinct = tt;
    distinct = tt;
    allocated = tt;
    counted = refl;
    accounted = refl;
  }

  module _ (k : Key) where
    -- The map and the list lead to one cell, or to none.
    pub data Found : Type 0 where
      absent :
          lookup Bytes_discrete k c.items ≡ none
          → cell_of c.cells k c.order ≡ none
          → find k (entries c) ≡ none
          → Found
      present :
          (e : ℕ)
          → lookup Bytes_discrete k c.items ≡ some e
          → cell_of c.cells k c.order ≡ some e
          → find k (entries c) ≡ some (c.cells e).blob
          → Found

    pub Found-cases : Found
    Found-cases = elim (Option-cases (cell_of c.cells k c.order)) [
      | inl h ↦ absent (v.agree k ∙ h) h (ground (arith, lookup-view c.cells k c.order))
      | inr (e, h) ↦ present e (v.agree k ∙ h) h (ground (arith, lookup-view c.cells k c.order))
    ]

    pub get-IsValid : IsValid (get c k).0
    unfolding get
    get-IsValid = elim Found-cases [
      | absent m a f ↦ rw (m, get) v
      | present e m a f ↦ rw (m, get) (moved-IsValid c v k e a)
    ]

    -- `Get` returns the value of the key and makes it the most recent.
    pub get_lem : (entries (get c k).0, (get c k).1) ≡ spec_get k (entries c)
    unfolding get spec_get
    get_lem = elim Found-cases [
      | absent m a f ↦ ground arith
      | present e m a f ↦ ground (arith, entries-moved c v k e a)
    ]

    pub delete_key-IsValid : IsValid (delete_key c k).0
    unfolding delete_key
    delete_key-IsValid = elim Found-cases [
      | absent m a f ↦ rw (m, delete_key) v
      | present e m a f ↦ rw (m, delete_key) (unlink-IsValid c v k e a)
    ]

    pub delete_key_lem :
        (entries (delete_key c k).0, (delete_key c k).1) ≡ spec_delete k (entries c)
    unfolding delete_key spec_delete
    delete_key_lem = elim Found-cases [
      | absent m a f ↦ ground arith
      | present e m a f ↦ ground (arith, entries-unlink c v k e a)
    ]

    -- The cache after the eviction loop of `Put`.
    abbrev pub evicted : Blob → Cache
    evicted b = evict_loop (length c.order) c (int64 (size b))

    pub capacity-put : (b : Blob) → (put c k b).capacity ≡ c.capacity
    unfolding put
    capacity-put b = ground (arith, capacity-evict_loop (length c.order) c (int64 (size b)))

    pub evicted-IsValid : (b : Blob) → IsValid (evicted b)
    evicted-IsValid b = evict_loop-IsValid (length c.order) c (int64 (size b)) v

    pub evicted_absent :
        (b : Blob)
        → lookup Bytes_discrete k c.items ≡ none
        → cell_of (evicted b).cells k (evicted b).order ≡ none
    evicted_absent b m =
        sym ((evicted-IsValid b).agree k)
        ∙ absent-evict_loop k (length c.order) c (int64 (size b)) v m

    pub put-IsValid : (b : Blob) → IsValid (put c k b)
    unfolding put
    put-IsValid b = elim Found-cases [
      | absent m a f ↦
          rw (m, put) (put_new-IsValid (evicted b) (evicted-IsValid b) k (evicted_absent b m) b)
      | present e m a f ↦ rw (m, put) (put_update-IsValid c v k e a b)
    ]

    evicted_lem :
        (b : Blob)
        → c.capacity < sign_bit
        → total (entries c) + size b < sign_bit
        → entries (evicted b) ≡ kept c.capacity (size b) (entries c)
    evicted_lem b hc ht =
        let fits : int64 (size b) ≡ size b = omega arith in
        rw fits (entries-evict_loop (size b) (length c.order) c v hc ht (omega arith))

    -- `Put` stores the value as the most recent one; a new key makes room first.
    pub put_lem :
        (b : Blob)
        → c.capacity < sign_bit
        → total (entries c) + size b < sign_bit
        → entries (put c k b) ≡ spec_put c.capacity k b (entries c)
    unfolding put spec_put
    put_lem b hc ht = elim Found-cases [
      | absent m a f ↦ ground (
        arith,
        entries-put_new (evicted b) (evicted-IsValid b) k (evicted_absent b m) b,
        evicted_lem b hc ht,
      )
      | present e m a f ↦ ground (arith, entries-put_update c v k e a b)
    ]

    pub find-put_self : (b : Blob) → find k (entries (put c k b)) ≡ some b
    unfolding put lookup
    find-put_self b = elim Found-cases [
      | absent m a f ↦
          ground (arith, entries-put_new (evicted b) (evicted-IsValid b) k (evicted_absent b m) b)
      | present e m a f ↦ ground (arith, entries-put_update c v k e a b)
    ]
