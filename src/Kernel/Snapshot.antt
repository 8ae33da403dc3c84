-- ===== src/Kernel/Snapshot.antt =====
-- internal/kernel/manager.go: State, CoreState and the metadata that they show. A copied slice is
-- the same list.
pub mod Bound
use rpc_plugin_system.Prelude.{
  ℕ, Bool, true, false, not, ◌&&◌, Option, none, some, List, [], ◌∷◌, Text, text_eq, ◌==◌,
  if◌then◌else◌,
}
use rpc_plugin_system.Bundle.Types.{Metadata, CoreDto, AdminDto}
use rpc_plugin_system.Bundle.Project.{core_dto, admin_dto}
use rpc_plugin_system.Kernel.Types.{Config, State, Manager}

-- A look-up in ByGeneration.
abbrev pub by_generation : ℕ → List (ℕ × Metadata) → Option Metadata
by_generation g [] = none
by_generation g ((k, d) ∷ rest) = if k == g then some d else by_generation g rest

abbrev pub refreshed : ℕ → Option (List (ℕ × Metadata)) → Option Metadata
refreshed g none = none
refreshed g (some table) = by_generation g table

-- The metadata names this plugin and this generation.
abbrev pub is_bound : State → Metadata → Bool
is_bound s d = text_eq d.plugin_id s.plugin_id && (d.plugin_generation == s.generation_id)

abbrev pub if_bound : State → Option Metadata → Option Metadata
if_bound s none = none
if_bound s (some d) = if is_bound s d then some d else none

abbrev pub or_else : Option Metadata → Option Metadata → Option Metadata
or_else (some d) e = some d
or_else none e = e

-- First the table of refreshed metadata, then the configured one.
unfoldable pub generation_bound_metadata : Config → State → Option Metadata
generation_bound_metadata cfg s =
    or_else (if_bound s (refreshed s.generation_id cfg.refresh)) (if_bound s cfg.metadata)

abbrev pub to_core : Option Metadata → Option CoreDto
to_core none = none
to_core (some d) = some (core_dto d)

abbrev pub to_admin : Bool → Option Metadata → Option AdminDto
to_admin redact_paths none = none
to_admin redact_paths (some d) = some (admin_dto d redact_paths)

-- State as an admin sees it: the fields of `state` and the projected metadata.
pub record View : Type 0 where
  pub state : State
  pub metadata : Option AdminDto

pub record CoreState : Type 0 where
  pub plugin_id : Text
  pub generation_id : ℕ
  pub healthy : Bool
  pub metadata : Option CoreDto

unfoldable pub view : Manager → View
unfolding generation_bound_metadata
view m = record {
  state = m.state;
  metadata = to_admin (not m.cfg.show_paths) (generation_bound_metadata m.cfg m.state);
}

unfoldable pub core_state : Manager → CoreState
unfolding generation_bound_metadata
core_state m = record {
  plugin_id = m.state.plugin_id;
  generation_id = m.state.generation_id;
  healthy = m.state.healthy;
  metadata = to_core (generation_bound_metadata m.cfg m.state);
}
