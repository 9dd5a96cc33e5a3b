-- ===== src/Nodus/Cache/Evict.antt =====
-- The eviction loop of `Put` in internal/nodus/cache.go.
use crom_spirit_iso.Prelude.{
  ℕ, none, ◌%◌, List, zero, suc, ◌+◌, ◌-◌, ◌≤◌, ◌<◌, ◌≡◌, refl, ◌∙◌, ap, sym, subst, length-append,
  some, Option-cases, inl, inr, false, [], ◌∷◌, ◌++◌, arith, length, leb, ltb, if◌then◌else◌,
  sign_bit, gt64_nonneg, Bool-cases, ◌&&◌, word,
}
use crom_spirit_iso.Prelude.Dict.{lookup, lookup-delete}
use crom_spirit_iso.Prelude.Text.{Bytes_discrete}
use crom_spirit_iso.Nodus.Slice.{Blob, size}
use crom_spirit_iso.Nodus.Cache.{Key, Cache, back, evict_oldest, must_evict, evict_loop}
use crom_spirit_iso.Nodus.Cache.Entries.{
  Entries, total, entry_at, total-append, cell_of, contains-back, cell_of_contained, view-back,
  length-view,
}
use crom_spirit_iso.Nodus.Cache.Valid.{IsValid, entries}
use crom_spirit_iso.Nodus.Cache.Steps.{unlink, unlink-IsValid}

back-some : (x : ℕ) (l : List ℕ) → (e : ℕ) × (back (x ∷ l) ≡ some e)
unfolding back
back-some x [] = (x, refl)
back-some x (y ∷ l) = back-some y l

module _ (c : Cache) (v : IsValid c) where
  module _ (e : ℕ) (at : back c.order ≡ some e) where
    oldest_cell : cell_of c.cells (c.cells e).key c.order ≡ some e
    oldest_cell = cell_of_contained c.cells e c.order (contains-back e c.order at) v.distinct

    evict_oldest-unlink : evict_oldest c ≡ unlink c (c.cells e).key e
    unfolding evict_oldest
    evict_oldest-unlink = rw (at, evict_oldest)

    -- The oldest entry is the last one, and no other is lost.
    pub entries-evict_oldest : entries c ≡ entries (evict_oldest c) ++ entry_at c.cells e ∷ []
    entries-evict_oldest = rw evict_oldest-unlink (view-back c.cells e c.order at v.distinct)

  pub evict_oldest-IsValid : IsValid (evict_oldest c)
  evict_oldest-IsValid = elim (Option-cases (back c.order)) [
    | inl empty ↦ unfold evict_oldest in rw (empty, evict_oldest) v
    | inr (e, at) ↦
        rw (evict_oldest-unlink e at) (unlink-IsValid c v (c.cells e).key e (oldest_cell e at))
  ]

  -- Eviction brings no key back.
  pub absent-evict_oldest :
      (k : Key)
      → lookup Bytes_discrete k c.items ≡ none
      → lookup Bytes_discrete k (evict_oldest c).items ≡ none
  unfolding evict_oldest
  absent-evict_oldest k h = elim (Option-cases (back c.order)) [
    | inl empty ↦ ground arith
    | inr (e, at) ↦
        ground (arith, lookup-delete Bytes_discrete (c.cells e).key k c.items v.items_distinct)
  ]

pub evict_loop-IsValid : (fuel : ℕ) (c : Cache) (n : ℕ) → IsValid c → IsValid (evict_loop fuel c n)
unfolding evict_loop
evict_loop-IsValid zero c n v = v
evict_loop-IsValid (suc fuel) c n v = elim (Bool-cases (must_evict c n)) [
  | inl more ↦ rw more (evict_loop-IsValid fuel (evict_oldest c) n (evict_oldest-IsValid c v))
  | inr done ↦ rw done v
]

pub absent-evict_loop :
    (k : Key) (fuel : ℕ) (c : Cache) (n : ℕ)
    → IsValid c
    → lookup Bytes_discrete k c.items ≡ none
    → lookup Bytes_discrete k (evict_loop fuel c n).items ≡ none
unfolding evict_loop
absent-evict_loop k zero c n v h = h
absent-evict_loop k (suc fuel) c n v h = ground (
  arith,
  absent-evict_loop k fuel (evict_oldest c) n (evict_oldest-IsValid c v)
      (absent-evict_oldest c v k h),
)

-- The specification of what stays: the most recent entries, as long as they fit.
unfoldable pub keep_fitting : ℕ → Entries → Entries
keep_fitting room [] = []
keep_fitting room ((k, b) ∷ l) =
    if leb (size b) room then (k, b) ∷ keep_fitting (room - size b) l else []

-- What stays in a cache of `cap` bytes that makes room for `n` bytes.
abbrev pub kept : ℕ → ℕ → Entries → Entries
kept cap n l = if leb n cap then keep_fitting (cap - n) l else []

pub keep_fitting_all : (room : ℕ) (l : Entries) → total l ≤ room → keep_fitting room l ≡ l
unfolding keep_fitting
keep_fitting_all room [] h = refl
keep_fitting_all room ((k, b) ∷ l) h = ground (arith, keep_fitting_all (room - size b) l)

keep_fitting-append :
    (room : ℕ) (l : Entries) (x : Key × Blob)
    → room < total (l ++ x ∷ [])
    → keep_fitting room (l ++ x ∷ []) ≡ keep_fitting room l
unfolding keep_fitting
keep_fitting-append room [] (k, b) h = ground arith
keep_fitting-append room ((k, b) ∷ l) x h = ground (arith, keep_fitting-append (room - size b) l x)

pub total-keep_fitting : (room : ℕ) (l : Entries) → total (keep_fitting room l) ≤ room
unfolding keep_fitting
total-keep_fitting room [] = omega arith
total-keep_fitting room ((k, b) ∷ l) = ground (arith, total-keep_fitting (room - size b) l)

kept-append :
    (cap n : ℕ) (l : Entries) (x : Key × Blob)
    → cap < total (l ++ x ∷ []) + n
    → kept cap n (l ++ x ∷ []) ≡ kept cap n l
kept-append cap n l x h = ground (arith, keep_fitting-append (cap - n) l x)

kept_nil : (cap n : ℕ) → kept cap n [] ≡ []
unfolding keep_fitting
kept_nil cap n = ground arith

capacity-evict_oldest : (c : Cache) → (evict_oldest c).capacity ≡ c.capacity
unfolding evict_oldest
capacity-evict_oldest c = ground arith

pub capacity-evict_loop :
    (fuel : ℕ) (c : Cache) (n : ℕ) → (evict_loop fuel c n).capacity ≡ c.capacity
unfolding evict_loop
capacity-evict_loop zero c n = refl
capacity-evict_loop (suc fuel) c n =
    ground (arith, capacity-evict_loop fuel (evict_oldest c) n, capacity-evict_oldest c)

length-entries : (c : Cache) → length (entries c) ≡ length c.order
length-entries c = length-view c.cells c.order

nil_of_length : (l : Entries) → length l ≤ 0 → l ≡ []
nil_of_length [] h = refl
nil_of_length (x ∷ l) h = absurd (omega arith)

back_of_length : (l : List ℕ) → 0 < length l → (e : ℕ) × (back l ≡ some e)
back_of_length [] h = absurd (omega arith)
back_of_length (x ∷ l) h = back-some x l

module _ (n : ℕ) where
  -- Without wrap-around the loop's test compares the true sums.
  must_evict-eq :
      (c : Cache)
      → IsValid c
      → c.capacity < sign_bit
      → total (entries c) + n < sign_bit
      → must_evict c n ≡ (ltb c.capacity (total (entries c) + n) && ltb 0 (length c.order))
  must_evict-eq c v hc ht =
      let e : (c.used + n) % word ≡ total (entries c) + n = omega (arith, v.accounted) in
      rw (e, gt64_nonneg _ _ ht hc)

  -- What one eviction takes off: an entry of the back.
  record Shrinks (c : Cache) : Type 0 where
    gone : Key × Blob
    split : entries c ≡ entries (evict_oldest c) ++ gone ∷ []

  evict_oldest-Shrinks : (c : Cache) → IsValid c → 0 < length c.order → Shrinks c
  evict_oldest-Shrinks c v h =
      let (e, at) = back_of_length c.order h in
      record { gone = entry_at c.cells e; split = entries-evict_oldest c v e at }

  module _ (c : Cache) (s : Shrinks c) where
    total-Shrinks : total (entries (evict_oldest c)) ≤ total (entries c)
    total-Shrinks =
        omega (arith, ap total s.split, total-append (entries (evict_oldest c)) (s.gone ∷ []))

    length-Shrinks : length (evict_oldest c).order + 1 ≡ length c.order
    length-Shrinks = omega (
      arith,
      ap length s.split,
      length-append (entries (evict_oldest c)) (s.gone ∷ []),
      length-entries c,
      length-entries (evict_oldest c),
    )

    kept-Shrinks :
        c.capacity < total (entries c) + n
        → kept (evict_oldest c).capacity n (entries (evict_oldest c))
          ≡ kept c.capacity n (entries c)
    kept-Shrinks h =
        ap (λ k. kept k n (entries (evict_oldest c))) (capacity-evict_oldest c)
        ∙ sym (
            kept-append c.capacity n (entries (evict_oldest c)) s.gone
              (subst (λ l. c.capacity < total l + n) s.split h))
        ∙ ap (kept c.capacity n) (sym s.split)

  kept_done :
      (c : Cache)
      → (ltb c.capacity (total (entries c) + n) && ltb 0 (length c.order)) ≡ false
      → kept c.capacity n (entries c) ≡ entries c
  kept_done c h = elim (Bool-cases (ltb 0 (length c.order))) [
    | inl some_left ↦ ground (arith, keep_fitting_all (c.capacity - n) (entries c))
    | inr none_left ↦
        let empty = nil_of_length (entries c) (ground (arith, length-entries c)) in
        ap (kept c.capacity n) empty ∙ kept_nil c.capacity n ∙ sym empty
  ]

  -- With a round for each element the loop ends by its test and keeps the recent entries that fit.
  pub entries-evict_loop :
      (fuel : ℕ) (c : Cache)
      → IsValid c
      → c.capacity < sign_bit
      → total (entries c) + n < sign_bit
      → length c.order ≤ fuel
      → entries (evict_loop fuel c n) ≡ kept c.capacity n (entries c)
  unfolding evict_loop
  entries-evict_loop zero c v hc ht hf =
      let none_left = nil_of_length (entries c) (omega (arith, length-entries c)) in
      rw (none_left, kept_nil)
  entries-evict_loop (suc fuel) c v hc ht hf = elim (Bool-cases (must_evict c n)) [
    | inl more ↦
        let test = must_evict-eq c v hc ht in
        let s = evict_oldest-Shrinks c v (ground (arith, test)) in
        rw more (
          entries-evict_loop fuel (evict_oldest c) (evict_oldest-IsValid c v)
            (omega (arith, capacity-evict_oldest c)) (omega (arith, total-Shrinks c s))
            (omega (arith, length-Shrinks c s))
          ∙ kept-Shrinks c s (ground (arith, test)))
    | inr done ↦ rw done (sym (kept_done c (ground (arith, must_evict-eq c v hc ht))))
  ]

pub total-keep_fitting-le : (room : ℕ) (l : Entries) → total (keep_fitting room l) ≤ total l
unfolding keep_fitting
total-keep_fitting-le room [] = omega arith
total-keep_fitting-le room ((k, b) ∷ l) = ground (arith, total-keep_fitting-le (room - size b) l)
