-- ===== src/Tools/Config.antt =====
-- What cmd/nodus/main.go reads from a configuration file.
use crom_spirit_iso.Prelude.{
  ◌≡◌, refl, ◌∙◌, ap, Option, none, some, List, [], ◌∷◌, ◌++◌, map, All, ite,
}
use crom_spirit_iso.Prelude.Text.{Bytes, Bytes_discrete}
use crom_spirit_iso.Prelude.Strings.{split, split_2, split_from, split_2_from, trim_space, join}
use crom_spirit_iso.Prelude.Splits.{
  IsFree, IsFree-append, split_from-append, split_from-whole, split_2_from-append,
}
use crom_spirit_iso.Prelude.Dict.{lookup, insert, lookup-insert}
use crom_spirit_iso.Tools.NodusTool.{read_line, read_lines, read_config}

-- A setting as a line of the file, and settings as a file.
abbrev pub setting_line : Bytes × Bytes → Bytes
setting_line (k, v) = k ++ b'=' ∷ v

abbrev pub render : List (Bytes × Bytes) → Bytes
render ps = join (b'\n' ∷ []) (map setting_line ps)

-- No equals sign in the key, no line break, and no white space around the key and the value.
abbrev pub IsSetting : Bytes × Bytes → Type 0
IsSetting (k, v) =
    IsFree b'=' k × IsFree b'\n' k × IsFree b'\n' v × (trim_space k ≡ k) × (trim_space v ≡ v)

abbrev pub or_else : Option Bytes → Option Bytes → Option Bytes
or_else none o = o
or_else (some v) o = some v

-- The value of a key in the last of the settings that has it.
abbrev pub last_value : Bytes → List (Bytes × Bytes) → Option Bytes
last_value k [] = none
last_value k ((j, v) ∷ ps) = or_else (last_value k ps) (ite (Bytes_discrete j k) (some v) none)

or_else-ite :
    {P : Type 0} (o : Option Bytes) (d : Dec P) (v : Bytes) (r : Option Bytes)
    → or_else o (ite d (some v) r) ≡ or_else (or_else o (ite d (some v) none)) r
or_else-ite none (yes p) v r = refl
or_else-ite none (no p) v r = refl
or_else-ite (some w) d v r = refl

or_else-none : (o : Option Bytes) → or_else o none ≡ o
or_else-none none = refl
or_else-none (some v) = refl

setting_line-IsFree : (p : Bytes × Bytes) → IsSetting p → IsFree b'\n' (setting_line p)
setting_line-IsFree (k, v) (_, key_free, value_free, _, _) =
    IsFree-append b'\n' k (b'=' ∷ v) key_free (refl, value_free)

split-render :
    (p : Bytes × Bytes) (ps : List (Bytes × Bytes))
    → All IsSetting (p ∷ ps)
    → split b'\n' (render (p ∷ ps)) ≡ map setting_line (p ∷ ps)
unfolding join
split-render p [] h = split_from-whole b'\n' [] (setting_line p) (setting_line-IsFree p h.0)
split-render p (q ∷ ps) h =
    let e : render (p ∷ q ∷ ps) ≡ setting_line p ++ b'\n' ∷ render (q ∷ ps) = refl in
    split_from-append b'\n' [] (setting_line p) (render (q ∷ ps)) (setting_line-IsFree p h.0)
    ∙ ap (λ ls. setting_line p ∷ ls) (split-render q ps h.1)

read_line-setting :
    (k v : Bytes) (config : List (Bytes × Bytes))
    → IsSetting (k, v)
    → read_line (split_2 b'=' (setting_line (k, v))) config ≡ insert Bytes_discrete k v config
read_line-setting k v config (equals, _, _, key, value) =
    rw (split_2_from-append b'=' [] k v equals, key, value) refl

lookup-read_lines :
    (k : Bytes) (ps : List (Bytes × Bytes)) (config : List (Bytes × Bytes))
    → All IsSetting ps
    → lookup Bytes_discrete k (read_lines (map setting_line ps) config)
      ≡ or_else (last_value k ps) (lookup Bytes_discrete k config)
unfolding read_lines
lookup-read_lines k [] config h = refl
lookup-read_lines k ((j, v) ∷ ps) config h =
    rw (read_line-setting j v config h.0, read_lines)
      (lookup-read_lines k ps (insert Bytes_discrete j v config) h.1
        ∙ ap (or_else (last_value k ps)) (lookup-insert Bytes_discrete j k v config)
        ∙ or_else-ite (last_value k ps) (Bytes_discrete j k) v (lookup Bytes_discrete k config))

lookup-empty : (k : Bytes) → lookup Bytes_discrete k (read_config (some (render []))) ≡ none
unfolding read_config lookup split_from join split_2_from
lookup-empty k = refl

-- A file of settings, one `key=value` on each line, is read as the settings: the last one of a key
-- counts. The keys have no equals sign, neither keys nor values have a line break, and neither have
-- white space around them.
pub read_config-render :
    (k : Bytes) (ps : List (Bytes × Bytes))
    → All IsSetting ps
    → lookup Bytes_discrete k (read_config (some (render ps))) ≡ last_value k ps
unfolding read_config lookup
read_config-render k [] h = lookup-empty k
read_config-render k (p ∷ ps) h =
    ap (λ ls. lookup Bytes_discrete k (read_lines ls [])) (split-render p ps h)
    ∙ lookup-read_lines k (p ∷ ps) [] h
    ∙ or_else-none (last_value k (p ∷ ps))
