-- ===== src/Nodus/Cache/Holds.antt =====
-- What is true of every slice that the cache of internal/nodus/cache.go holds for a key, and stays so.
use crom_spirit_iso.Prelude.{
  ℕ, zero, suc, [], ◌∷◌, ◌++◌, Option, none, some, ◌≡◌, ite, sym, ap, subst, All, Option-cases,
  Bool-cases, inl, inr, length, int64,
}
use crom_spirit_iso.Prelude.Dict.{lookup, delete}
use crom_spirit_iso.Prelude.Text.{Bytes_discrete}
use crom_spirit_iso.Nodus.Slice.{Slice, Blob, size}
use crom_spirit_iso.Nodus.Cache.{
  Key, Cache, back, evict_oldest, must_evict, evict_loop, get, put, delete_key,
}
use crom_spirit_iso.Nodus.Cache.Entries.{Entries, entry_at}
use crom_spirit_iso.Nodus.Cache.Valid.{IsValid, entries}
use crom_spirit_iso.Nodus.Cache.Steps.{entries-put_new, entries-put_update}
use crom_spirit_iso.Nodus.Cache.Evict.{entries-evict_oldest, evict_oldest-IsValid}
use crom_spirit_iso.Nodus.Cache.Reads.{get-find}
use crom_spirit_iso.Nodus.Cache.Methods.{
  find, or_nil, spec_get, spec_delete, get_lem, delete_key_lem, absent, present, Found-cases,
  evicted, evicted-IsValid, evicted_absent,
}

some_inj : {a b : Blob} → ◌≡◌ {A = Option Blob} (some a) (some b) → a ≡ b
some_inj e = cc

module _ (P : Key → Slice → Type 0) where
  abbrev pub OfBlob : Key → Blob → Type 0
  OfBlob k none = Unit
  OfBlob k (some s) = P k s

  -- Every slice of the entries satisfies the predicate of its key.
  abbrev pub Holds : Entries → Type 0
  Holds = All (λ e. OfBlob e.0 e.1)

  Holds-delete : (k : Key) (l : Entries) → Holds l → Holds (delete Bytes_discrete k l)
  unfolding delete
  Holds-delete k [] h = tt
  Holds-delete k ((j, b) ∷ l) h =
      elim (Bytes_discrete j k) as (λ d. Holds (ite d l ((j, b) ∷ delete Bytes_discrete k l))) [
        | yes same ↦ h.1
        | no other ↦ (h.0, Holds-delete k l h.1)
      ]

  Holds-find : (k : Key) (b : Blob) (l : Entries) → find k l ≡ some b → Holds l → OfBlob k b
  unfolding lookup
  Holds-find k b [] e h = absurd (cc)
  Holds-find k b ((j, c) ∷ l) e h =
      (elim (Bytes_discrete j k) as (λ d. ite d (some c) (find k l) ≡ some b → OfBlob k b) [
        | yes same ↦
            λ same_blob. subst (OfBlob k) (some_inj same_blob) (subst (λ i. OfBlob i c) same h.0)
        | no other ↦ λ later. Holds-find k b l later h.1
      ])
        e

  Holds-init : (l : Entries) (e : Key × Blob) → Holds (l ++ e ∷ []) → Holds l
  Holds-init [] e h = tt
  Holds-init (x ∷ l) e h = (h.0, Holds-init l e h.1)

  Holds-spec_get : (k : Key) (l : Entries) → Holds l → Holds (spec_get k l).0
  unfolding spec_get
  Holds-spec_get k l h = elim (Option-cases (find k l)) [
    | inl e ↦ rw (e, spec_get) h
    | inr (b, e) ↦ rw (e, spec_get) (Holds-find k b l e h, Holds-delete k l h)
  ]

  Holds-spec_delete : (k : Key) (l : Entries) → Holds l → Holds (spec_delete k l).0
  unfolding spec_delete
  Holds-spec_delete k l h = elim (Option-cases (find k l)) [
    | inl e ↦ rw (e, spec_delete) h
    | inr (b, e) ↦ rw (e, spec_delete) (Holds-delete k l h)
  ]

  OfBlob-or_nil : (k : Key) (l : Entries) → Holds l → OfBlob k (or_nil (find k l))
  OfBlob-or_nil k l h = elim (Option-cases (find k l)) [
    | inl e ↦ rw e tt
    | inr (b, e) ↦ rw e (Holds-find k b l e h)
  ]

  Holds-evict_oldest :
      (c : Cache) → IsValid c → Holds (entries c) → Holds (entries (evict_oldest c))
  Holds-evict_oldest c v h = elim (Option-cases (back c.order)) [
    | inl empty ↦ unfold evict_oldest in rw (empty, evict_oldest) h
    | inr (e, at) ↦
        Holds-init (entries (evict_oldest c)) (entry_at c.cells e)
          (subst Holds (entries-evict_oldest c v e at) h)
  ]

  Holds-evict_loop :
      (fuel : ℕ) (c : Cache) (n : ℕ)
      → IsValid c
      → Holds (entries c)
      → Holds (entries (evict_loop fuel c n))
  unfolding evict_loop
  Holds-evict_loop zero c n v h = h
  Holds-evict_loop (suc fuel) c n v h = elim (Bool-cases (must_evict c n)) [
    | inl more ↦ rw more (
        Holds-evict_loop fuel (evict_oldest c) n (evict_oldest-IsValid c v)
          (Holds-evict_oldest c v h))
    | inr done ↦ rw done h
  ]

  module _ (c : Cache) (v : IsValid c) (k : Key) (h : Holds (entries c)) where
    pub Holds-get : Holds (entries (get c k).0)
    Holds-get = subst Holds (sym (ap (λ r. r.0) (get_lem c v k))) (Holds-spec_get k (entries c) h)

    -- What `Get` returns was held.
    pub OfBlob-get : OfBlob k (get c k).1
    OfBlob-get = subst (OfBlob k) (sym (get-find c k v)) (OfBlob-or_nil k (entries c) h)

    pub Holds-delete_key : Holds (entries (delete_key c k).0)
    unfolding spec_delete
    Holds-delete_key =
        subst Holds (sym (ap (λ r. r.0) (delete_key_lem c v k))) (Holds-spec_delete k (entries c) h)

    pub Holds-put : (b : Blob) → OfBlob k b → Holds (entries (put c k b))
    unfolding put
    Holds-put b good = elim (Found-cases c v k) [
      | absent m a f ↦
          rw (m, put)
            (subst Holds
              (sym (
                entries-put_new (evicted c v k b) (evicted-IsValid c v k b) k
                  (evicted_absent c v k b m) b))
              (good, Holds-evict_loop (length c.order) c (int64 (size b)) v h))
      | present e m a f ↦
          rw (m, put)
            (subst Holds (sym (entries-put_update c v k e a b))
              (good, Holds-delete k (entries c) h))
    ]
