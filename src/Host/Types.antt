-- ===== src/Host/Types.antt =====
-- internal/kernel/host.go: the host. The map of managers and the sorted slice of their keys are one
-- list of pairs, in the order of the slice.
use rpc_plugin_system.Prelude.{
  ℕ, Bool, Option, none, some, List, [], ◌∷◌, Text, text_eq, text_leb, if◌then◌else◌,
}
use rpc_plugin_system.Bundle.Types.{Metadata}
use rpc_plugin_system.Kernel.Types.{Error, Manager, World}
use rpc_plugin_system.Kernel.Start.{Launch}
use rpc_plugin_system.Kernel.Stop.{Halt}
use rpc_plugin_system.Kernel.Lifecycle.{Setup}

pub record PluginConfig : Type 0 where
  pub plugin_id : Text
  pub plugin_path : Text
  pub metadata : Option Metadata
  pub refresh : Option (List (ℕ × Metadata))

pub record HostConfig : Type 0 where
  pub runtime_dir : Text
  pub dial_timeout : ℕ
  pub call_timeout : ℕ
  pub heartbeat_every : ℕ
  pub plugins : List PluginConfig
  pub show_paths : Bool

pub record Member : Type 0 where
  pub id : Text
  pub manager : Manager

pub data HostError : Type 0 where
  runtime_dir_required no_plugins invalid_plugin_id plugin_path_required duplicate_plugin_id :
      HostError
  unknown_plugin_id unsupported_call type_mismatch : HostError
  manager_error : Error → HostError

pub data HostResult {ℓ} (A : Type ℓ) : Type ℓ where
  done : A → HostResult A
  failed : HostError → HostResult A

-- What each plugin and the system answer, by plugin id, and filepath.Join.
pub record Outside : Type 0 where
  pub join : Text → Text → Text
  pub setup : Text → Setup
  pub world : Text → World
  pub launch : Text → Launch
  pub halt : Text → Halt
  pub log_close_fails : Text → Bool

abbrev pub find_member : Text → List Member → Option Manager
find_member id [] = none
find_member id (x ∷ xs) = if text_eq x.id id then some x.manager else find_member id xs

abbrev pub has_member : Text → List Member → Bool
has_member id [] = Bool.false
has_member id (x ∷ xs) = if text_eq x.id id then Bool.true else has_member id xs

-- A call of a method of one manager.
abbrev pub set_member : Text → Manager → List Member → List Member
set_member id m [] = []
set_member id m (x ∷ xs) =
    if text_eq x.id id then record x { manager = m } ∷ xs else x ∷ set_member id m xs

-- sort.Strings, on the keys
abbrev pub insert_member : Member → List Member → List Member
insert_member x [] = x ∷ []
insert_member x (y ∷ ys) = if text_leb x.id y.id then x ∷ (y ∷ ys) else y ∷ insert_member x ys

abbrev pub sort_members : List Member → List Member
sort_members [] = []
sort_members (x ∷ xs) = insert_member x (sort_members xs)
