-- ===== src/Tests/CacheTests.antt =====
-- The cache of internal/nodus/cache.go on a few files.
use crom_spirit_iso.Prelude.{
  ℕ, ◌+◌, ◌≤◌, ◌≡◌, refl, true, false, List, [], ◌∷◌, none, some, arith, ℕ_discrete,
}
use crom_spirit_iso.Prelude.Dict.{lookup, insert, delete}
use crom_spirit_iso.Prelude.Text.{bytes, Bytes_discrete}
use crom_spirit_iso.Nodus.Slice.{Blob}
use crom_spirit_iso.Nodus.Cache.{Key, Cache, new_cache, get, put, delete_key, clear, keys}
use crom_spirit_iso.Nodus.Cache.Evict.{keep_fitting}
use crom_spirit_iso.Nodus.Cache.Refine
use crom_spirit_iso.Nodus.Cache.Refine.{Call, Reply, value, removed, number, done, run, spec_run}
use crom_spirit_iso.Nodus.Cache.Reads
use crom_spirit_iso.Nodus.Cache.Valid.{IsValid, entries}

program : Unit {0}
unfolding Bytes_discrete lookup insert delete new_cache get put delete_key clear keys keep_fitting
    run spec_run ℕ_discrete
program = tt

abbrev a : Key
a = bytes "a"

abbrev b : Key
b = bytes "b"

abbrev c : Key
c = bytes "c"

abbrev blob : ℕ → ℕ → Blob
blob addr len = some (record { addr = addr; len = len })

-- A cache of ten bytes: `a` is used again, so `b` goes when `c` comes.
abbrev calls : List Call
calls =
    Call.put a (blob 0 4)
    ∷ Call.put b (blob 1 5)
    ∷ Call.get a
    ∷ Call.put c (blob 2 6)
    ∷ Call.get b
    ∷ Call.size_of
    ∷ Call.count
    ∷ Call.delete b
    ∷ Call.delete c
    ∷ Call.size_of
    ∷ []

replies :
    (run calls (new_cache 10)).1
    ≡ done
      ∷ done
      ∷ value (blob 0 4)
      ∷ done
      ∷ value none
      ∷ number 10
      ∷ number 2
      ∷ removed false
      ∷ removed true
      ∷ number 4
      ∷ []
unfolding program
replies = refl

abbrev two : Cache
two = (run (Call.put a (blob 0 4) ∷ Call.put b (blob 1 5) ∷ []) (new_cache 10)).0

two-IsValid : IsValid two
two-IsValid = Refine.run-IsValid 10 (Call.put a (blob 0 4) ∷ Call.put b (blob 1 5) ∷ [])

run-refines_example :
    (entries (run calls (new_cache 10)).0, (run calls (new_cache 10)).1) ≡ spec_run 10 calls []
run-refines_example = Refine.run-refines 10 calls (omega arith) (omega arith)

run-IsValid_example : IsValid (run calls (new_cache 10)).0
run-IsValid_example = Refine.run-IsValid 10 calls

get-put_self_example : (get (put two c (blob 2 9)) c).1 ≡ blob 2 9
get-put_self_example = Reads.get-put_self two c (blob 2 9) two-IsValid

two_bound : (two.capacity ≡ 10) × (entries two ≡ (b, blob 1 5) ∷ (a, blob 0 4) ∷ [])
unfolding program
two_bound = (refl, refl)

-- `two` holds nine bytes of ten, so one more fits.

used-put-le_example : (put two c (blob 2 6)).used ≤ two.capacity
unfolding program
used-put-le_example =
    Reads.used-put-le two c (blob 2 6) two-IsValid (omega arith) (omega arith) refl (omega arith)

-- An update that leaves a cache of ten bytes with 34.
used-put_update_example : (put two a (blob 3 29)).used + 4 ≡ two.used + 29
unfolding program
used-put_update_example =
    Reads.used-put_update two a (blob 3 29) two-IsValid (omega arith) (omega arith) (blob 0 4) refl
