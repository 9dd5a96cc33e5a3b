-- ===== src/Nodus/Cache/Refine.antt =====
-- A client of the cache of internal/nodus/cache.go: sequences of calls with their replies, and the
-- abstract cache that the client can think of.
use crom_spirit_iso.Prelude.{
  ℕ, ◌+◌, ◌-◌, ◌≤◌, ◌<◌, ◌≡◌, refl, ◌∙◌, ap, Bool, List, [], ◌∷◌, arith, length, sign_bit,
  Option-cases, inl, inr,
}
use crom_spirit_iso.Nodus.Slice.{Blob, size}
use crom_spirit_iso.Nodus.Cache
use crom_spirit_iso.Nodus.Cache.{Key, Cache, new_cache, cache_size}
use crom_spirit_iso.Nodus.Cache.Entries.{Entries, total, total-delete, length-view}
use crom_spirit_iso.Nodus.Cache.Valid.{IsValid, entries}
use crom_spirit_iso.Nodus.Cache.Evict.{total-keep_fitting-le}
use crom_spirit_iso.Nodus.Cache.Methods.{
  find, spec_get, spec_put, spec_delete, get_lem, put_lem, delete_key_lem, get-IsValid, put-IsValid,
  delete_key-IsValid, clear-IsValid, new_cache-IsValid, capacity-put,
}

pub data Call : Type 0 where
  get : Key → Call
  put : Key → Blob → Call
  delete : Key → Call
  clear : Call
  size_of : Call
  count : Call

pub data Reply : Type 0 where
  value : Blob → Reply
  removed : Bool → Reply
  number : ℕ → Reply
  done : Reply

unfoldable pub step : Call → Cache → Cache × Reply
step (get k) c = let (c', b) = Cache.get c k in (c', value b)
step (put k b) c = (Cache.put c k b, done)
step (delete k) c = let (c', b) = Cache.delete_key c k in (c', removed b)
step clear c = (Cache.clear c, done)
step size_of c = (c, number (cache_size c))
step count c = (c, number (Cache.count c))

unfoldable pub run : List Call → Cache → Cache × List Reply
unfolding step
run [] c = (c, [])
run (call ∷ calls) c = let (c', r) = step call c in let (c'', rs) = run calls c' in (c'', r ∷ rs)

-- The abstract cache of `cap` bytes.
unfoldable pub spec_step : ℕ → Call → Entries → Entries × Reply
unfolding spec_get spec_put spec_delete
spec_step cap (get k) l = let (l', b) = spec_get k l in (l', value b)
spec_step cap (put k b) l = (spec_put cap k b l, done)
spec_step cap (delete k) l = let (l', b) = spec_delete k l in (l', removed b)
spec_step cap clear l = ([], done)
spec_step cap size_of l = (l, number (total l))
spec_step cap count l = (l, number (length l))

unfoldable pub spec_run : ℕ → List Call → Entries → Entries × List Reply
unfolding spec_step
spec_run cap [] l = (l, [])
spec_run cap (call ∷ calls) l =
    let (l', r) = spec_step cap call l in let (l'', rs) = spec_run cap calls l' in (l'', r ∷ rs)

-- The bytes that calls hand over.
abbrev pub handed : Call → ℕ
handed (put k b) = size b
handed _ = 0

abbrev pub stored : List Call → ℕ
stored [] = 0
stored (call ∷ calls) = handed call + stored calls

step-IsValid : (call : Call) (c : Cache) → IsValid c → IsValid (step call c).0
unfolding step
step-IsValid (get k) c v = get-IsValid c v k
step-IsValid (put k b) c v = put-IsValid c v k b
step-IsValid (delete k) c v = delete_key-IsValid c v k
step-IsValid clear c v = clear-IsValid c v
step-IsValid size_of c v = v
step-IsValid count c v = v

run-IsValid_from : (calls : List Call) (c : Cache) → IsValid c → IsValid (run calls c).0
unfolding run
run-IsValid_from [] c v = v
run-IsValid_from (call ∷ calls) c v = run-IsValid_from calls (step call c).0 (step-IsValid call c v)

-- Every cache that calls reach from a new one is valid: its map and its list agree, no key is twice
-- in either, and the bytes in use are those held, as an int64.
pub run-IsValid : (cap : ℕ) (calls : List Call) → IsValid (run calls (new_cache cap)).0
run-IsValid cap calls = run-IsValid_from calls (new_cache cap) (new_cache-IsValid cap)

capacity-step : (call : Call) (c : Cache) → IsValid c → (step call c).0.capacity ≡ c.capacity
unfolding step Cache.get Cache.delete_key Cache.clear
capacity-step (put k b) c v = capacity-put c v k b
capacity-step _ c v = ground arith

total-spec_step :
    (cap : ℕ) (call : Call) (l : Entries) → total (spec_step cap call l).0 ≤ total l + handed call
unfolding spec_step
total-spec_step cap (get k) l = elim (Option-cases (find k l)) [
  | inl h ↦ ground arith
  | inr (b, h) ↦ ground (arith, total-delete k b l h)
]
total-spec_step cap (put k b) l = elim (Option-cases (find k l)) [
  | inl h ↦ ground (arith, total-keep_fitting-le (cap - size b) l)
  | inr (b', h) ↦ ground (arith, total-delete k b' l h)
]
total-spec_step cap (delete k) l = elim (Option-cases (find k l)) [
  | inl h ↦ ground arith
  | inr (b, h) ↦ ground (arith, total-delete k b l h)
]
total-spec_step cap clear l = omega arith
total-spec_step cap size_of l = omega arith
total-spec_step cap count l = omega arith

step-refines :
    (call : Call) (c : Cache)
    → IsValid c
    → c.capacity < sign_bit
    → total (entries c) + handed call < sign_bit
    → (entries (step call c).0, (step call c).1) ≡ spec_step c.capacity call (entries c)
unfolding step spec_step Cache.clear
step-refines (get k) c v hc ht = ap (λ r. (r.0, value r.1)) (get_lem c v k)
step-refines (put k b) c v hc ht = ap (λ l. (l, done)) (put_lem c v k b hc ht)
step-refines (delete k) c v hc ht = ap (λ r. (r.0, removed r.1)) (delete_key_lem c v k)
step-refines clear c v hc ht = refl
step-refines size_of c v hc ht = ap (λ n. (entries c, number n)) (omega (arith, v.accounted))
step-refines count c v hc ht =
    ap (λ n. (entries c, number n)) (omega (arith, v.counted, length-view c.cells c.order))

-- What a run of the abstract cache has in place of `c`.
run_from :
    (calls : List Call) (c : Cache)
    → IsValid c
    → c.capacity < sign_bit
    → total (entries c) + stored calls < sign_bit
    → (entries (run calls c).0, (run calls c).1) ≡ spec_run c.capacity calls (entries c)
unfolding run spec_run
run_from [] c v hc ht = refl
run_from (call ∷ calls) c v hc ht =
    let c' = (step call c).0 in
    let same = step-refines call c v hc (omega arith) in
    let cap = capacity-step call c v in
    let grown = total-spec_step c.capacity call (entries c) in
    let left : entries c' ≡ (spec_step c.capacity call (entries c)).0 = ap (λ r. r.0) same in
    let rest =
      run_from calls c' (step-IsValid call c v) (omega (arith, cap))
        (omega (arith, ap total left, grown)) in
    let reply = (step call c).1 in
    ap (λ r. (r.0, reply ∷ r.1)) rest
    ∙ ap (λ n. let (l, rs) = spec_run n calls (entries c') in (l, reply ∷ rs)) cap
    ∙ ap (λ r. let (l, rs) = spec_run c.capacity calls r.0 in (l, r.1 ∷ rs)) same

-- From an empty cache, with a capacity and a number of bytes ever handed over that fit an int64,
-- every sequence of calls replies as the abstract cache does, and ends with its entries.
pub run-refines :
    (cap : ℕ) (calls : List Call)
    → cap < sign_bit
    → stored calls < sign_bit
    → let c = (run calls (new_cache cap)).0 in
      (entries c, (run calls (new_cache cap)).1) ≡ spec_run cap calls []
unfolding new_cache
run-refines cap calls hc hs =
    run_from calls (new_cache cap) (new_cache-IsValid cap) hc (omega arith)
