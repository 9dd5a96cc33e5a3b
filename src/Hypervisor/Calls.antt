-- ===== src/Hypervisor/Calls.antt =====
-- What the operations of internal/hypervisor do with the domains that libvirt gives them.
use crom_spirit_iso.Prelude.{
  ℕ, ◌+◌, ◌&&◌, ◌||◌, ◌==◌, ==_refl, if◌then◌else◌, sym, Bool, true, false, ◌≡◌, refl, ◌∙◌, ap,
  List, [], ◌∷◌, ◌++◌, map, none, some, Option, arith,
}
use mathlib.Core.List.{append-nil, append_assoc}
use crom_spirit_iso.Prelude.Text.{Bytes}
use crom_spirit_iso.Hypervisor.{
  Libvirt, Domain, Call, obtained, created, shut_down, destroyed, queried, freed, obtain_all, ok,
  list_domains, list_vms, listed, start_vm, stop_vm, get_vm_state, vm_info,
}

abbrev holds : ℕ → List ℕ → Bool
holds i [] = false
holds i (j ∷ js) = (i == j) || holds i js

abbrev without : ℕ → List ℕ → List ℕ
without i [] = []
without i (j ∷ js) = if i == j then js else j ∷ without i js

-- Whether each domain is used and freed only while it is held, from those held at first on, and none
-- is held at the end.
abbrev pub is_balanced : List ℕ → List Call → Bool
is_balanced [] [] = true
is_balanced (i ∷ is) [] = false
is_balanced is (obtained i ∷ cs) = is_balanced (is ++ i ∷ []) cs
is_balanced is (freed i ∷ cs) = holds i is && is_balanced (without i is) cs
is_balanced is (created i ∷ cs) = holds i is && is_balanced is cs
is_balanced is (shut_down i ∷ cs) = holds i is && is_balanced is cs
is_balanced is (destroyed i ∷ cs) = holds i is && is_balanced is cs
is_balanced is (queried i ∷ cs) = holds i is && is_balanced is cs

pub data Operation : Type 0 where
  list : Operation
  start stop query : Bytes → Operation

-- libvirt as each operation finds it, with the operation.
abbrev pub calls_of : Libvirt → Operation → List Call
calls_of lv list = (list_vms lv).1
calls_of lv (start name) = (start_vm lv name).1
calls_of lv (stop name) = (stop_vm lv name).1
calls_of lv (query name) = (get_vm_state lv name).1

abbrev pub all_calls : List (Libvirt × Operation) → List Call
all_calls [] = []
all_calls ((lv, op) ∷ ops) = calls_of lv op ++ all_calls ops

-- The places of the domains of a list.
abbrev places : ℕ → List Domain → List ℕ
places i [] = []
places i (d ∷ ds) = i ∷ places (i + 1) ds

obtain_all-calls :
    (i : ℕ) (ds : List Domain) (is : List ℕ) (cs : List Call)
    → is_balanced is (obtain_all i ds ++ cs) ≡ is_balanced (is ++ places i ds) cs
unfolding obtain_all
obtain_all-calls i [] is cs = ap (λ l. is_balanced l cs) (sym (append-nil is))
obtain_all-calls i (d ∷ ds) is cs =
    obtain_all-calls (i + 1) ds (is ++ i ∷ []) cs
    ∙ ap (λ l. is_balanced l cs) (append_assoc is (i ∷ []) (places (i + 1) ds))

list_domains-calls :
    (i : ℕ) (ds : List Domain) (cs : List Call)
    → is_balanced (places i ds) ((list_domains i ds).1 ++ cs) ≡ is_balanced [] cs
unfolding list_domains
list_domains-calls i [] cs = refl
list_domains-calls i (d ∷ ds) cs =
    let self : (i == i) ≡ true = ==_refl i in rw self (list_domains-calls (i + 1) ds cs)

listed-calls :
    (o : Option (List Domain)) (cs : List Call)
    → is_balanced [] ((listed o).1 ++ cs) ≡ is_balanced [] cs
listed-calls none cs = refl
listed-calls (some ds) cs =
    ap (is_balanced []) (append_assoc (obtain_all 0 ds) (list_domains 0 ds).1 cs)
    ∙ obtain_all-calls 0 ds [] ((list_domains 0 ds).1 ++ cs)
    ∙ list_domains-calls 0 ds cs

operation-calls :
    (lv : Libvirt) (op : Operation) (cs : List Call)
    → is_balanced [] (calls_of lv op ++ cs) ≡ is_balanced [] cs
unfolding list_vms start_vm stop_vm get_vm_state
operation-calls lv list cs = listed-calls lv.domains cs
operation-calls lv (start name) cs = ground arith
operation-calls lv (stop name) cs = ground arith
operation-calls lv (query name) cs = ground arith

-- In any sequence of operations, whatever libvirt replies, each domain that an operation obtains is
-- freed once, is used only before that, and none is left when all operations are over.
pub is_balanced-all_calls :
    (ops : List (Libvirt × Operation)) → is_balanced [] (all_calls ops) ≡ true
is_balanced-all_calls [] = refl
is_balanced-all_calls ((lv, op) ∷ ops) =
    operation-calls lv op (all_calls ops) ∙ is_balanced-all_calls ops

list_domains-map : (i : ℕ) (ds : List Domain) → (list_domains i ds).0 ≡ map vm_info ds
unfolding list_domains
list_domains-map i [] = refl
list_domains-map i (d ∷ ds) = ap (λ l. vm_info d ∷ l) (list_domains-map (i + 1) ds)

-- `ListVMs` reports each domain that libvirt lists, in order.
list_vms-map :
    (lv : Libvirt) (ds : List Domain) → lv.domains ≡ some ds → (list_vms lv).0 ≡ ok (map vm_info ds)
unfolding list_vms
list_vms-map lv ds h = rw h (ap ok (list_domains-map 0 ds))
