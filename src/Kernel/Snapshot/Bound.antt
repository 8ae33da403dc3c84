-- ===== src/Kernel/Snapshot/Bound.antt =====
-- internal/kernel/manager.go: metadata is shown only for the generation that it was declared for.
use rpc_plugin_system.Prelude.{
  ◌≡◌, inl, inr, Bool, true, false, not, Option, none, some, text_eq_iff, arith, Bool-cases, ==_iff,
}
use rpc_plugin_system.Bundle.Types.{Metadata, CoreDto, AdminDto}
use rpc_plugin_system.Bundle.Project.{core_dto, admin_dto}
use rpc_plugin_system.Bundle.Safe.{IsShown, admin_dto-IsShown}
use rpc_plugin_system.Kernel.Types.{Config, State, Manager}
use rpc_plugin_system.Kernel.Snapshot.{
  refreshed, is_bound, if_bound, or_else, generation_bound_metadata, to_core, to_admin, view,
  core_state,
}

-- Declared for this plugin in this generation.
pub record IsBound (s : State) (d : Metadata) : Type 0 where
  pub plugin_id : d.plugin_id ≡ s.plugin_id
  pub generation : d.plugin_generation ≡ s.generation_id

-- Nothing is bound, or the chosen metadata is.
abbrev Chosen : State → Option Metadata → Type 0
Chosen s none = Unit {0}
Chosen s (some d) = IsBound s d

if_bound-Chosen : (s : State) (o : Option Metadata) → Chosen s (if_bound s o)
if_bound-Chosen s none = tt
if_bound-Chosen s (some d) = elim (Bool-cases (is_bound s d)) [
  | inl h ↦ rw h (record {
    plugin_id = ground (arith, text_eq_iff d.plugin_id s.plugin_id);
    generation = ground (arith, ==_iff d.plugin_generation s.generation_id);
  })
  | inr h ↦ rw h tt
]

or_else-Chosen :
    (s : State) (a b : Option Metadata) → Chosen s a → Chosen s b → Chosen s (or_else a b)
or_else-Chosen s (some d) b h k = h
or_else-Chosen s none b h k = k

generation_bound-Chosen : (cfg : Config) (s : State) → Chosen s (generation_bound_metadata cfg s)
unfolding generation_bound_metadata
generation_bound-Chosen cfg s =
    or_else-Chosen s _ _ (if_bound-Chosen s (refreshed s.generation_id cfg.refresh))
      (if_bound-Chosen s cfg.metadata)

abbrev pub CoreFits : State → Option CoreDto → Type 0
CoreFits s none = Unit {0}
CoreFits s (some d) = (d.plugin_id ≡ s.plugin_id) × (d.plugin_generation ≡ s.generation_id)

abbrev pub AdminFits : Bool → State → Option AdminDto → Type 0
AdminFits show s none = Unit {0}
AdminFits true s (some d) = d.plugin_generation ≡ s.generation_id
AdminFits false s (some d) = (d.plugin_generation ≡ s.generation_id) × IsShown d

to_core-Fits : (s : State) (o : Option Metadata) → Chosen s o → CoreFits s (to_core o)
unfolding core_dto
to_core-Fits s none h = tt
to_core-Fits s (some d) h = (h.plugin_id, h.generation)

admin_dto-Fits :
    (show : Bool) (s : State) (d : Metadata)
    → IsBound s d
    → AdminFits show s (some (admin_dto d (not show)))
admin_dto-Fits true s d h = unfold admin_dto in h.generation
admin_dto-Fits false s d h = (unfold admin_dto in h.generation, admin_dto-IsShown d)

to_admin-Fits :
    (show : Bool) (s : State) (o : Option Metadata)
    → Chosen s o
    → AdminFits show s (to_admin (not show) o)
to_admin-Fits show s none h = tt
to_admin-Fits show s (some d) h = admin_dto-Fits show s d h

-- The metadata in State and in CoreState, if there is any, was declared for the generation that the
-- manager is in, and the core's names the manager's plugin. Unless the configuration disables the
-- redaction of paths, the admin's has a bundle root, a manifest path and asset paths that are neither
-- absolute nor secret-like, and a plugin id, schema version, error code, error message and correlation
-- id that are not secret-like; its digests and its status are shown as they are.
pub view-Fits :
    (m : Manager)
    → CoreFits m.state (core_state m).metadata
      × AdminFits m.cfg.show_paths m.state (view m).metadata
unfolding core_state view
view-Fits m =
    let c = generation_bound-Chosen m.cfg m.state in
    (to_core-Fits m.state _ c, to_admin-Fits m.cfg.show_paths m.state _ c)
