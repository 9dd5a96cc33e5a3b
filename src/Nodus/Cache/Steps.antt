-- ===== src/Nodus/Cache/Steps.antt =====
-- What one step of the cache of internal/nodus/cache.go does to its entries, and that it keeps
-- the invariant: the parts from which the methods are made.
use crom_spirit_iso.Prelude.{
  ℕ, ◌≡◌, ◌∙◌, subst, sym, ap, none, some, false, ◌∷◌, arith, ◌<◌, int64, sub64,
}
use crom_spirit_iso.Prelude.Dict.{
  lookup, delete, Distinct, lookup-insert, lookup-delete, delete-Distinct, insert-Distinct,
  length-insert_absent, length-delete_present,
}
use crom_spirit_iso.Prelude.Text.{Bytes_discrete}
use crom_spirit_iso.Nodus.Slice.{Blob, size}
use crom_spirit_iso.Nodus.Cache.{Key, Cache, remove, contains, move_to_front, put_update, put_new}
use crom_spirit_iso.Nodus.Cache.Entries.{
  total, All-lt_suc, lt_of_contains, cell_of, total-delete, All-remove, length-remove,
  not-contains_fresh, key-cell_of, lookup-view, contains-cell_of, not-contains_of_none, view-remove,
  cell_of-remove, view-write, cell_of-write,
}
use crom_spirit_iso.Nodus.Cache.Valid.{IsValid, entries}

-- The cache without the element `e` of key `k`.
abbrev pub unlink : Cache → Key → ℕ → Cache
unlink c k e = record c {
  order = remove e c.order;
  items = delete Bytes_discrete k c.items;
  used = sub64 c.used (int64 (size (c.cells e).blob));
}

module _ (c : Cache) (v : IsValid c) (k : Key) where
  module _ (e : ℕ) (at : cell_of c.cells k c.order ≡ some e) where
    pub entries-unlink : entries (unlink c k e) ≡ delete Bytes_discrete k (entries c)
    entries-unlink = view-remove c.cells k e c.order at

    found : lookup Bytes_discrete k (entries c) ≡ some (c.cells e).blob
    found = ground (arith, lookup-view c.cells k c.order)

    pub unlink-IsValid : IsValid (unlink c k e)
    unlink-IsValid = record {
      agree = λ j. ground (
        arith,
        v.agree j,
        lookup-delete Bytes_discrete k j c.items v.items_distinct,
        cell_of-remove c.cells k j e c.order at v.distinct,
      );
      items_distinct = delete-Distinct Bytes_discrete k c.items v.items_distinct;
      distinct = rw entries-unlink (delete-Distinct Bytes_discrete k (entries c) v.distinct);
      allocated = All-remove (λ i. i < c.fresh) e c.order v.allocated;
      counted = omega (
        arith,
        v.counted,
        length-delete_present Bytes_discrete k e c.items (v.agree k ∙ at),
        length-remove e c.order (contains-cell_of c.cells k e c.order at),
      );
      accounted =
          rw entries-unlink
            (omega (arith, v.accounted, total-delete k (c.cells e).blob (entries c) found));
    }

    gone : lookup Bytes_discrete k (delete Bytes_discrete k (entries c)) ≡ none
    gone = ground (arith, lookup-delete Bytes_discrete k k (entries c) v.distinct)

    not_left : contains e (remove e c.order) ≡ false
    not_left = not-contains_of_none c.cells e (remove e c.order) (
        ground (
          arith,
          key-cell_of c.cells k e c.order at,
          cell_of-remove c.cells k k e c.order at v.distinct,
        ))

    bounded : e < c.fresh
    bounded = lt_of_contains c.fresh e c.order (contains-cell_of c.cells k e c.order at) v.allocated

    moved : move_to_front e c.order ≡ e ∷ remove e c.order
    unfolding move_to_front
    moved = rw (contains-cell_of c.cells k e c.order at)

    -- The cache with the element `e` moved to the front.
    pub entries-moved :
        entries (record c { order = move_to_front e c.order })
        ≡ (k, (c.cells e).blob) ∷ delete Bytes_discrete k (entries c)
    entries-moved =
        rw (moved, key-cell_of c.cells k e c.order at, view-remove c.cells k e c.order at)

    pub moved-IsValid : IsValid (record c { order = move_to_front e c.order })
    unfolding cell_of
    moved-IsValid = record {
      agree = λ j. rw moved (
          ground (
            arith,
            v.agree j,
            v.agree k,
            key-cell_of c.cells k e c.order at,
            cell_of-remove c.cells k j e c.order at v.distinct,
          ));
      items_distinct = v.items_distinct;
      distinct = rw entries-moved (gone, delete-Distinct Bytes_discrete k (entries c) v.distinct);
      allocated = rw moved (bounded, All-remove (λ i. i < c.fresh) e c.order v.allocated);
      counted = rw moved (
          omega
            (arith, v.counted, length-remove e c.order (contains-cell_of c.cells k e c.order at)));
      accounted =
          rw entries-moved
            (omega (arith, v.accounted, total-delete k (c.cells e).blob (entries c) found));
    }

    -- The update of a key that the cache has.
    pub entries-put_update :
        (b : Blob) → entries (put_update c e k b) ≡ (k, b) ∷ delete Bytes_discrete k (entries c)
    unfolding put_update
    entries-put_update b =
        rw
          (
            moved,
            view-write c.cells e (record (c.cells e) { blob = b }) (remove e c.order) not_left,
            view-remove c.cells k e c.order at,
          )
          (ground (arith, key-cell_of c.cells k e c.order at))

    pub put_update-IsValid : (b : Blob) → IsValid (put_update c e k b)
    unfolding put_update cell_of
    put_update-IsValid b = record {
      agree = λ j. rw (moved) (
          ground (
            arith,
            v.agree j,
            v.agree k,
            key-cell_of c.cells k e c.order at,
            cell_of-write c.cells e (record (c.cells e) { blob = b }) j (remove e c.order) not_left,
            cell_of-remove c.cells k j e c.order at v.distinct,
          ));
      items_distinct = v.items_distinct;
      distinct =
          rw (entries-put_update b) (gone, delete-Distinct Bytes_discrete k (entries c) v.distinct);
      allocated = rw moved (bounded, All-remove (λ i. i < c.fresh) e c.order v.allocated);
      counted = rw moved (
          omega
            (arith, v.counted, length-remove e c.order (contains-cell_of c.cells k e c.order at)));
      accounted =
          rw (entries-put_update b)
            (omega (arith, v.accounted, total-delete k (c.cells e).blob (entries c) found));
    }

  module _ (absent : cell_of c.cells k c.order ≡ none) where
    unused : contains c.fresh c.order ≡ false
    unused = not-contains_fresh c.fresh c.order v.allocated

    -- The insertion of a key that the cache has not.
    pub entries-put_new : (b : Blob) → entries (put_new c k b) ≡ (k, b) ∷ entries c
    unfolding put_new
    entries-put_new b =
        rw (view-write c.cells c.fresh (record { key = k; blob = b }) c.order unused) (ground arith)

    pub put_new-IsValid : (b : Blob) → IsValid (put_new c k b)
    unfolding put_new cell_of
    put_new-IsValid b = record {
      agree = λ j. ground (
        arith,
        v.agree j,
        lookup-insert Bytes_discrete k j c.fresh c.items,
        cell_of-write c.cells c.fresh (record { key = k; blob = b }) j c.order unused,
      );
      items_distinct = insert-Distinct Bytes_discrete k c.fresh c.items v.items_distinct;
      distinct =
          subst (λ l. Distinct Bytes_discrete l) (sym (entries-put_new b))
            (ground (arith, lookup-view c.cells k c.order), v.distinct);
      allocated = (omega arith, All-lt_suc c.fresh c.order v.allocated);
      counted = omega (
        arith,
        v.counted,
        length-insert_absent Bytes_discrete k c.fresh c.items (v.agree k ∙ absent),
      );
      accounted = omega (arith, v.accounted, ap total (entries-put_new b));
    }
