-- ===== src/Host/Capabilities.antt =====
-- internal/kernel/host.go, State: the capability map.
use rpc_plugin_system.Prelude.{
  ◌≡◌, refl, ap, ◌∙◌, Bool, false, ◌&&◌, ◌||◌, List, [], ◌∷◌, ◌++◌, map, Text, text_eq, text_eq_iff,
  arith, inl, inr, Bool-cases, if◌then◌else◌,
}
use rpc_plugin_system.Host.Types.{Member}
use rpc_plugin_system.Host.Routing.{
  CapabilityMap, append_at, add_capabilities, collect, insert_text, sort_texts, host_state,
}

abbrev pub has_text : Text → List Text → Bool
has_text t [] = false
has_text t (x ∷ xs) = text_eq x t || has_text t xs

abbrev pub ids_at : Text → CapabilityMap → List Text
ids_at name [] = []
ids_at name ((k, ids) ∷ rest) = if text_eq k name then ids else ids_at name rest

-- Some member of this id lists the capability.
abbrev pub provides : Text → Text → List Member → Bool
provides id name [] = false
provides id name (x ∷ xs) =
    (text_eq x.id id && has_text name x.manager.state.capabilities) || provides id name xs

has_text-append :
    (t : Text) (xs : List Text) (x : Text)
    → has_text t (xs ++ x ∷ []) ≡ (text_eq x t || has_text t xs)
has_text-append t [] x = refl
has_text-append t (y ∷ ys) x = ground (arith, has_text-append t ys x)

has_text-insert_text :
    (t x : Text) (ys : List Text) → has_text t (insert_text x ys) ≡ (text_eq x t || has_text t ys)
has_text-insert_text t x [] = refl
has_text-insert_text t x (y ∷ ys) = ground (arith, has_text-insert_text t x ys)

has_text-sort_texts : (t : Text) (xs : List Text) → has_text t (sort_texts xs) ≡ has_text t xs
has_text-sort_texts t [] = refl
has_text-sort_texts t (x ∷ xs) =
    ground (arith, has_text-insert_text t x (sort_texts xs), has_text-sort_texts t xs)

has_text-append_at :
    (id name k i : Text) (out : CapabilityMap)
    → has_text id (ids_at name (append_at k i out))
      ≡ ((text_eq k name && text_eq i id) || has_text id (ids_at name out))
unfolding append_at
has_text-append_at id name k i [] = ground arith
has_text-append_at id name k i ((key, ids) ∷ rest) = elim (Bool-cases (text_eq key k)) [
  | inl e ↦ rw ((text_eq_iff key k).0 e) (ground (arith, text_eq_iff k k, has_text-append id ids i))
  | inr e ↦ ground (
    arith,
    e,
    has_text-append_at id name k i rest,
    text_eq_iff key name,
    text_eq_iff k name,
    text_eq_iff key k,
  )
]

has_text-add_capabilities :
    (id name i : Text) (caps : List Text) (out : CapabilityMap)
    → has_text id (ids_at name (add_capabilities i caps out))
      ≡ ((text_eq i id && has_text name caps) || has_text id (ids_at name out))
unfolding add_capabilities
has_text-add_capabilities id name i [] out = ground arith
has_text-add_capabilities id name i (c ∷ caps) out = ground (
  arith,
  has_text-add_capabilities id name i caps (append_at c i out),
  has_text-append_at id name c i out,
)

has_text-collect :
    (id name : Text) (xs : List Member) (out : CapabilityMap)
    → has_text id (ids_at name (collect xs out))
      ≡ (provides id name xs || has_text id (ids_at name out))
unfolding collect
has_text-collect id name [] out = refl
has_text-collect id name (x ∷ xs) out = ground (
  arith,
  has_text-collect id name xs (add_capabilities x.id x.manager.state.capabilities out),
  has_text-add_capabilities id name x.id x.manager.state.capabilities out,
)

ids_at-sorted :
    (name : Text) (out : CapabilityMap)
    → ids_at name (map (λ (k, ids). (k, sort_texts ids)) out) ≡ sort_texts (ids_at name out)
ids_at-sorted name [] = refl
ids_at-sorted name ((k, ids) ∷ rest) = elim (Bool-cases (text_eq k name)) [
  | inl e ↦ rw e refl
  | inr e ↦ rw e (ids_at-sorted name rest)
]

-- In the capability map of a host, a plugin id stands under a capability exactly if a member of that
-- id lists the capability in its current state.
pub capability_map-provides :
    (id name : Text) (members : List Member)
    → has_text id (ids_at name (host_state members).capability_map) ≡ provides id name members
unfolding host_state
capability_map-provides id name members =
    ap (has_text id) (ids_at-sorted name (collect members []))
    ∙ (has_text-sort_texts id (ids_at name (collect members []))
        ∙ ground (arith, has_text-collect id name members []))
