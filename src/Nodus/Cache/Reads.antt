-- ===== src/Nodus/Cache/Reads.antt =====
-- What a client of the cache of internal/nodus/cache.go reads after a call, and the bound on its
-- size.
use crom_spirit_iso.Prelude.{
  ℕ, ◌+◌, ◌-◌, ◌≤◌, ◌<◌, ◌≡◌, ◌≢◌, refl, ◌∙◌, ap, sym, none, some, List, [], ◌∷◌, arith, sign_bit,
  if◌then◌else◌, map, ite, is_some,
}
use crom_spirit_iso.Prelude.Dict.{lookup, Distinct, lookup-delete}
use crom_spirit_iso.Prelude.Text.{Bytes_discrete}
use crom_spirit_iso.Nodus.Slice.{Blob, size}
use crom_spirit_iso.Nodus.Cache.{Key, Cache, get, put, delete_key, keys}
use crom_spirit_iso.Nodus.Cache.Entries.{Entries, total, total-delete, lookup-view}
use crom_spirit_iso.Nodus.Cache.Valid.{IsValid, entries}
use crom_spirit_iso.Nodus.Cache.Evict.{keep_fitting_all, total-keep_fitting}
use crom_spirit_iso.Nodus.Cache.Methods.{
  find, or_nil, spec_get, spec_put, spec_delete, get_lem, put_lem, delete_key_lem, put-IsValid,
  delete_key-IsValid, find-put_self,
}

-- What `Get` returns on a valid cache: the value in the list of entries, or nil.
pub get-find : (c : Cache) (k : Key) → IsValid c → (get c k).1 ≡ or_nil (find k (entries c))
unfolding spec_get
get-find c k v = ap (λ r. r.1) (get_lem c v k) ∙ ground arith

-- A value that was put is what the next `Get` of its key returns, whatever was evicted.
pub get-put_self : (c : Cache) (k : Key) (b : Blob) → IsValid c → (get (put c k b) k).1 ≡ b
get-put_self c k b v =
    get-find (put c k b) k (put-IsValid c v k b) ∙ ap or_nil (find-put_self c v k b)

total-spec_put-le :
    (cap : ℕ) (k : Key) (b : Blob) (l : Entries)
    → find k l ≡ none
    → size b ≤ cap
    → total (spec_put cap k b l) ≤ cap
unfolding spec_put
total-spec_put-le cap k b l h fits = ground (arith, total-keep_fitting (cap - size b) l)

total-spec_put_update :
    (cap : ℕ) (k : Key) (b old : Blob) (l : Entries)
    → find k l ≡ some old
    → total (spec_put cap k b l) + size old ≡ total l + size b
unfolding spec_put
total-spec_put_update cap k b old l h = ground (arith, total-delete k old l h)

module _ (c : Cache) (k : Key) (b : Blob) (v : IsValid c) (hc : c.capacity < sign_bit)
    (ht : total (entries c) + size b < sign_bit) where
  -- Where the new value fits, no other key is lost or changed.
  get-put_ne :
      (j : Key)
      → total (entries c) + size b ≤ c.capacity
      → k ≢ j
      → (get (put c k b) j).1 ≡ (get c j).1
  unfolding spec_put lookup
  get-put_ne j room ne =
      get-find (put c k b) j (put-IsValid c v k b)
      ∙ ap (λ l. or_nil (find j l)) (put_lem c v k b hc ht)
      ∙ ground (
        arith,
        keep_fitting_all (c.capacity - size b) (entries c),
        lookup-delete Bytes_discrete k j (entries c) v.distinct,
      )
      ∙ sym (get-find c j v)

  -- After a new key is put, the bytes in use are within the capacity, if the value alone is.
  pub used-put-le : find k (entries c) ≡ none → size b ≤ c.capacity → (put c k b).used ≤ c.capacity
  used-put-le new fits = omega (
    arith,
    (put-IsValid c v k b).accounted,
    ap total (put_lem c v k b hc ht),
    total-spec_put-le c.capacity k b (entries c) new fits,
  )

  -- An update evicts nothing: it changes the bytes in use by the difference of the two values,
  -- whatever the capacity is.
  pub used-put_update :
      (old : Blob) → find k (entries c) ≡ some old → (put c k b).used + size old ≡ c.used + size b
  used-put_update old h = omega (
    arith,
    (put-IsValid c v k b).accounted,
    v.accounted,
    ap total (put_lem c v k b hc ht),
    total-spec_put_update c.capacity k b old (entries c) h,
  )

-- After `Delete` the key is gone, the other keys are as before, and the reply tells whether there
-- was such a key.
pub get-delete_key :
    (c : Cache) (k j : Key)
    → IsValid c
    → ((get (delete_key c k).0 j).1 ≡ ite (Bytes_discrete k j) none (get c j).1)
      × ((delete_key c k).1 ≡ is_some (find k (entries c)))
unfolding spec_delete
get-delete_key c k j v = (
  get-find (delete_key c k).0 j (delete_key-IsValid c v k)
      ∙ ap (λ r. or_nil (find j r.0)) (delete_key_lem c v k)
      ∙ ground (arith, lookup-delete Bytes_discrete k j (entries c) v.distinct)
      ∙ ap (λ b. ite (Bytes_discrete k j) none b) (sym (get-find c j v)),
  ap (λ r. r.1) (delete_key_lem c v k) ∙ ground arith,
)

abbrev pub occurrences : Key → List Key → ℕ
occurrences k [] = 0
occurrences k (j ∷ l) = ite (Bytes_discrete j k) 1 0 + occurrences k l

occurrences-keys :
    (k : Key) (m : List (Key × ℕ))
    → Distinct Bytes_discrete m
    → occurrences k (map (λ e. e.0) m) ≡ (if is_some (lookup Bytes_discrete k m) then 1 else 0)
unfolding lookup
occurrences-keys k [] d = refl
occurrences-keys k ((j, i) ∷ m) d = ground (arith, occurrences-keys k m d.1)

-- `Keys` lists each cached key once, in whatever order, and no other.
keys_lem :
    (c : Cache) (k : Key)
    → IsValid c
    → occurrences k (keys c) ≡ (if is_some (find k (entries c)) then 1 else 0)
unfolding keys
keys_lem c k v =
    occurrences-keys k c.items v.items_distinct
    ∙ ground (arith, v.agree k, lookup-view c.cells k c.order)
