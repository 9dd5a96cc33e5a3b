-- ===== src/Nodus/System/Sound.antt =====
-- What holds of a node of internal/nodus after any events, and what its users then rely on.
use crom_spirit_iso.Prelude.{
  ℕ, Option, none, some, List, [], ◌∷◌, ◌≡◌, subst, Option-cases, inl, inr,
}
use crom_spirit_iso.Prelude.Text.{Bytes}
use crom_spirit_iso.Nodus.Cache.{Key, new_cache}
use crom_spirit_iso.Nodus.Cache.Methods.{new_cache-IsValid}
use crom_spirit_iso.Nodus.Node.{new_node, cache_capacity}
use crom_spirit_iso.Nodus.System.{System, started, Event, step, reached}
use crom_spirit_iso.Nodus.System.Grows.{Owner}
use crom_spirit_iso.Nodus.System.Moves.{
  IsSound, Moves, written_to, or_name, step-Moves, written_to-WritesOnly,
}

abbrev pub IsSoundIfAny : Option System → Type 0
IsSoundIfAny none = Unit
IsSoundIfAny (some s) = IsSound s

pub started-IsSound : IsSound started
unfolding new_node new_cache
started-IsSound = record {
  own = λ i. [];
  node_sound = record { valid = new_cache-IsValid cache_capacity; cached = tt };
  files_inside = tt;
}

Moves-IsSound :
    (w : Key) (s : System) (own : Owner) (o : Option System) → Moves w s own o → IsSoundIfAny o
Moves-IsSound w s own none m = tt
Moves-IsSound w s own (some s') (own', g, files) = record {
  own = own';
  node_sound = g.sound;
  files_inside = files;
}

pub step-IsSound :
    (s : System)
    → IsSound s
    → (sha256 : Bytes → Bytes) (limit : ℕ) (e : Event) → IsSoundIfAny (step sha256 limit s e)
step-IsSound s h sha256 limit e =
    let w = or_name [] (written_to s e) in
    Moves-IsSound w s h.own (step sha256 limit s e)
      (step-Moves w s h sha256 limit e (written_to-WritesOnly [] s e))

-- After any events that cause no panic, the cache of the node is valid, and every slice that it or an
-- open file holds for a name lies in an allocated array, which was made for a file of that name: files
-- of different names never share memory.
pub reached-IsSound :
    (sha256 : Bytes → Bytes) (limit : ℕ) (es : List Event) → IsSoundIfAny (reached sha256 limit es)
unfolding reached
reached-IsSound sha256 limit [] = started-IsSound
reached-IsSound sha256 limit (e ∷ earlier) = elim (Option-cases (reached sha256 limit earlier)) [
  | inl gone ↦ rw gone tt
  | inr (s, at) ↦
      rw at (
        step-IsSound s (subst IsSoundIfAny at (reached-IsSound sha256 limit earlier)) sha256 limit
          e)
]

-- The same, for a system that the events reached.
pub reached-IsSound_if :
    (sha256 : Bytes → Bytes) (limit : ℕ) (es : List Event) (s : System)
    → reached sha256 limit es ≡ some s
    → IsSound s
reached-IsSound_if sha256 limit es s at = subst IsSoundIfAny at (reached-IsSound sha256 limit es)
