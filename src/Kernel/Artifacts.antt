-- ===== src/Kernel/Artifacts.antt =====
-- internal/kernel/manager.go: cleanupRuntimeArtifacts, cleanupOwnsRuntimeArtifacts,
-- rollbackGeneration and cleanupFailedStart; internal/runtime/runtime.go: the two paths.
use rpc_plugin_system.Prelude.{
  ℕ, Bool, true, false, not, ◌&&◌, ◌||◌, Option, none, some, ◌∷◌, ◌++◌, Text, codes, is_empty, ◌==◌,
  if◌then◌else◌,
}
use rpc_plugin_system.Kernel.Types.{
  Level, Component, EventName, Error, Reason, entry, Config, File, World, Manager, log_event, dec64,
  empty_state, without,
}
use rpc_plugin_system.Kernel.Rpc.{close_conn}

-- filepath.Join of a clean directory and a file name
unfoldable pub join : Text → Text → Text
join dir name = dir ++ (b'/' ∷ name)

unfoldable pub socket_path : Config → Text
unfolding join
socket_path cfg = join cfg.runtime_dir (cfg.plugin_id ++ codes ".sock")

unfoldable pub auth_path : Config → Text
unfolding join
auth_path cfg = join cfg.runtime_dir (cfg.plugin_id ++ codes ".auth")

-- os.Remove: the file afterwards, and whether it failed with an error other than "not exist"
unfoldable pub remove_file : File → File × Bool
remove_file f =
    if f.present
    then (if f.removable then (record f { present = false }, false) else (f, true))
    else (f, false)

unfoldable pub remove_artifacts : World → World
unfolding remove_file
remove_artifacts w = record w {
  socket_file = (remove_file w.socket_file).0;
  auth_file = (remove_file w.auth_file).0;
}

unfoldable pub remove_failed : World → Bool
unfolding remove_file
remove_failed w = (remove_file w.socket_file).1 || (remove_file w.auth_file).1

unfoldable pub owns_artifacts : ℕ → Manager → Bool
owns_artifacts generation m =
    (m.state.generation_id == generation) || ((m.state.pid == 0) && is_empty m.state.socket_path)

unfoldable pub cleanup_artifacts : ℕ → Manager → Manager
unfolding owns_artifacts remove_artifacts remove_failed
cleanup_artifacts generation m =
    if not (generation == 0) && not (owns_artifacts generation m)
    then log_event (entry Level.debug Component.runtime EventName.runtime_cleanup generation 0) m
    else (let m' = record m { world = remove_artifacts m.world } in
        if remove_failed m.world
        then log_event
            (entry Level.warn Component.runtime EventName.runtime_cleanup_failed generation 0) m'
        else log_event (entry Level.info Component.runtime EventName.runtime_cleanup generation 0)
            m')

unfoldable pub rollback_generation : ℕ → Manager → Manager
rollback_generation generation m =
    if m.state.generation_id == generation
    then record m {
      state = record empty_state { plugin_id = m.cfg.plugin_id; generation_id = dec64 generation };
    }
    else m

-- cmd.Process.Kill and Wait of an own child: the process is gone afterwards
unfoldable pub reap : ℕ → Manager → Manager
reap pid m = record m { world = record m.world { running = without pid m.world.running } }

unfoldable pub close_client : Option ℕ → Manager → Manager
unfolding close_conn
close_client none m = m
close_client (some c) m = close_conn c m

-- Lines 1023 to 1044.
unfoldable pub undo_start : ℕ → Option ℕ → ℕ → Reason → Error → Manager → Manager
unfolding close_client reap rollback_generation
undo_start pid client generation reason cause m =
    log_event
      (record (entry Level.error Component.kernel EventName.plugin_start_failed generation pid) {
        reason = some reason;
        error = some cause;
      })
      (rollback_generation generation (reap pid (close_client client m)))

unfoldable pub cleanup_failed_start : ℕ → Option ℕ → ℕ → Reason → Error → Manager → Manager
unfolding undo_start cleanup_artifacts
cleanup_failed_start pid client generation reason cause m =
    cleanup_artifacts generation (undo_start pid client generation reason cause m)
