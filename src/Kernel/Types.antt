-- ===== src/Kernel/Types.antt =====
-- internal/kernel/manager.go: the state that a Manager keeps, and the log entries it writes.
-- A pointer (client, process) is the number of the object. The world outside the process (files,
-- child processes, connections) is a record of its own.
use rpc_plugin_system.Prelude.{
  ℕ, ◌+◌, ◌-◌, ◌%◌, ◌^◌, Bool, false, Option, none, List, [], ◌∷◌, Text, ◌==◌, if◌then◌else◌,
}
use rpc_plugin_system.Bundle.Types.{Metadata}

pub data Level : Type 0 where
  debug info warn error : Level

pub data Component : Type 0 where
  kernel rpc auth runtime : Component

-- eventlog.Event…, the names used by the kernel lifecycle
pub data EventName : Type 0 where
  manager_initialized plugin_start_requested plugin_start_failed plugin_started : EventName
  plugin_dial_succeeded plugin_dial_started plugin_dial_failed : EventName
  auth_started auth_succeeded auth_failed peer_cred_verified : EventName
  capabilities_started capabilities_failed capabilities_loaded : EventName
  heartbeat_healthy heartbeat_unhealthy heartbeat_failed : EventName
  rpc_started rpc_succeeded rpc_failed rpc_timeout rpc_poisoned : EventName
  restart_requested restart_succeeded restart_failed : EventName
  shutdown_requested shutdown_succeeded shutdown_failed kill_requested : EventName
  plugin_killed plugin_stopped runtime_cleanup runtime_cleanup_failed : EventName

pub data Method : Type 0 where
  auth capabilities heartbeat shutdown echo sleep crash : Method

-- The errors that client.Call delivers, by what isRPCPoisonError tells apart.
pub data RpcError : Type 0 where
  shut_down eof unexpected_eof net_closed net_error op_error handler_error : RpcError

pub data Error : Type 0 where
  manager_closed already_started not_started client_unavailable : Error
  token_error write_token_error spawn_error dial_timeout : Error
  peer_cred_error peer_pid_mismatch id_mismatch generation_mismatch sentinel_failure : Error
  call_failed : RpcError → Error
  call_timeout stale_response stale_heartbeat : Error
  wait_error kill_error wait_after_kill_error : Error
  config_incomplete bad_executable bad_runtime_dir log_open_error log_close_error : Error

pub data Reason : Type 0 where
  manager_close restart_requested kill_requested : Reason
  dial_failure peer_credential_mismatch auth_rpc_failure auth_id_mismatch : Reason
  auth_generation_mismatch capabilities_rpc_failure capabilities_id_mismatch : Reason
  capabilities_generation_mismatch capabilities_sentinel : Reason
  transport_failure deadline_passed heartbeat_check heartbeat_recovery unhealthy_status : Reason

pub data Result {ℓ} (A : Type ℓ) : Type ℓ where
  ok : A → Result A
  err : Error → Result A

pub record LogEntry : Type 0 where
  pub level : Level
  pub component : Component
  pub event : EventName
  pub generation_id : ℕ
  pub pid : ℕ
  pub method : Option Method
  pub reason : Option Reason
  pub error : Option Error

abbrev pub entry : Level → Component → EventName → ℕ → ℕ → LogEntry
entry level component event generation pid = record {
  level = level;
  component = component;
  event = event;
  generation_id = generation;
  pid = pid;
  method = none;
  reason = none;
  error = none;
}

pub record Config : Type 0 where
  pub runtime_dir : Text
  pub plugin_path : Text
  pub plugin_id : Text
  pub event_log_path : Text
  pub dial_timeout : ℕ
  pub call_timeout : ℕ
  pub heartbeat_every : ℕ
  pub metadata : Option Metadata
  pub refresh : Option (List (ℕ × Metadata))  -- ByGeneration
  pub show_paths : Bool  -- DisableProviderBundleAdminPathRedaction

pub record State : Type 0 where
  pub plugin_id : Text
  pub generation_id : ℕ
  pub healthy : Bool
  pub capabilities : List Text
  pub socket_path : Text
  pub pid : ℕ

-- A path of the runtime directory; a file that is not `removable` makes os.Remove fail.
pub record File : Type 0 where
  pub present : Bool
  pub removable : Bool

pub record World : Type 0 where
  pub socket_file : File
  pub auth_file : File
  pub running : List ℕ  -- child processes not yet waited for
  pub conns : List ℕ  -- open client connections

pub record Manager : Type 0 where
  pub cfg : Config
  pub state : State
  pub cmd : Option ℕ
  pub client : Option ℕ
  pub rpc_epoch : ℕ
  pub closed : Bool
  pub log : List LogEntry  -- newest first
  pub log_open : Bool
  pub close_result : Option (Result (Unit {0}))  -- what closeOnce has run to, if it has
  pub world : World

-- generation and epoch are uint64
abbrev pub inc64 : ℕ → ℕ
inc64 n = (n + 1) % 2 ^ 64

abbrev pub dec64 : ℕ → ℕ
dec64 n = (n + 2 ^ 64 - 1) % 2 ^ 64

-- logEvent: a write whose error is dropped, so that a closed log takes nothing
abbrev pub log_event : LogEntry → Manager → Manager
log_event e m = record m { log = if m.log_open then e ∷ m.log else m.log }

-- Takes the first occurrence of a process or connection out.
unfoldable pub without : ℕ → List ℕ → List ℕ
without n [] = []
without n (x ∷ xs) = if x == n then xs else x ∷ without n xs

abbrev pub empty_state : State
empty_state = record {
  plugin_id = [];
  generation_id = 0;
  healthy = false;
  capabilities = [];
  socket_path = [];
  pid = 0;
}
