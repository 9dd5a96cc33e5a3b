-- ===== src/Hypervisor/Address.antt =====
-- The address of a device as internal/hypervisor/vm.go reads it.
use crom_spirit_iso.Prelude.{◌≡◌, refl, ◌∙◌, ap, [], ◌∷◌, ◌++◌}
use crom_spirit_iso.Prelude.Strings.{split, split_from}
use crom_spirit_iso.Prelude.Splits.{IsFree, IsFree-append, split_from-append, split_from-whole}
use crom_spirit_iso.Prelude.Text.{Bytes}
use crom_spirit_iso.Hypervisor.Vm.{hostdev, slot_function, address_parts, host_dev_xml}

host_dev_xml-parts : (s : Bytes) → host_dev_xml s ≡ address_parts (split b':' s)
unfolding host_dev_xml address_parts split_from
host_dev_xml-parts [] = refl
host_dev_xml-parts (b ∷ s) = refl

-- An address with a domain, a bus, a slot and a function is passed through with these four parts,
-- if none of them has a colon, and neither the slot nor the function a dot.
pub host_dev_xml-address :
    (domain bus slot function : Bytes)
    → IsFree b':' domain
    → IsFree b':' bus
    → IsFree b':' slot
    → IsFree b':' function
    → IsFree b'.' slot
    → IsFree b'.' function
    → host_dev_xml (domain ++ b':' ∷ (bus ++ b':' ∷ (slot ++ b'.' ∷ function)))
      ≡ hostdev domain bus slot function
unfolding address_parts slot_function
host_dev_xml-address domain bus slot function hd hb hs hf ds df =
    let last = slot ++ b'.' ∷ function in
    let whole : split b':' last ≡ last ∷ [] =
      split_from-whole b':' [] last (IsFree-append b':' slot (b'.' ∷ function) hs (refl, hf)) in
    let from_bus : split b':' (bus ++ b':' ∷ last) ≡ bus ∷ last ∷ [] =
      split_from-append b':' [] bus last hb ∙ ap (λ l. bus ∷ l) whole in
    let parts : split b':' (domain ++ b':' ∷ (bus ++ b':' ∷ last)) ≡ domain ∷ bus ∷ last ∷ [] =
      split_from-append b':' [] domain (bus ++ b':' ∷ last) hd ∙ ap (λ l. domain ∷ l) from_bus in
    let function_whole : split b'.' function ≡ function ∷ [] =
      split_from-whole b'.' [] function df in
    let slots : split b'.' last ≡ slot ∷ function ∷ [] =
      split_from-append b'.' [] slot function ds ∙ ap (λ l. slot ∷ l) function_whole in
    host_dev_xml-parts (domain ++ b':' ∷ (bus ++ b':' ∷ last))
    ∙ ap address_parts parts
    ∙ ap (slot_function domain bus) slots

-- An address with one colon, such as one without its domain, passes no device through.
host_dev_xml_short :
    (bus rest : Bytes) → IsFree b':' bus → IsFree b':' rest → host_dev_xml (bus ++ b':' ∷ rest) ≡ []
unfolding address_parts
host_dev_xml_short bus rest hb hr =
    host_dev_xml-parts (bus ++ b':' ∷ rest)
    ∙ ap address_parts (
        split_from-append b':' [] bus rest hb
        ∙ ap (λ l. bus ∷ l) (split_from-whole b':' [] rest hr))
