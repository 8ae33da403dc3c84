-- ===== src/Ctl/Chosen.antt =====
-- cmd/rpcpluginctl/main.go, resolveLogPath: which log is read without a plugin id.
use rpc_plugin_system.Prelude.{
  ℕ, suc, ◌+◌, ◌≤◌, ◌≡◌, ◌⊎◌, inl, inr, refl, Bool, true, false, ◌&&◌, ◌||◌, Option, none, some,
  List, [], ◌∷◌, Text, text_eq, text_eq_refl, arith, Bool-cases, if◌then◌else◌,
}
use rpc_plugin_system.Ctl.Options.{
  Files, LogPath, found, unreadable_dir, several_logs, log_in, plugin_logs, choose_log,
  log_of_entries, resolve_log_path,
}

module _ (files : Files) (dir : Text) where
  abbrev pub has_log : Text → Bool
  has_log name = files.exists (log_in files (files.join dir name))

  abbrev pub count_logs : List (Text × Bool) → ℕ
  count_logs [] = 0
  count_logs ((name, is_dir) ∷ rest) = (if is_dir && has_log name then 1 else 0) + count_logs rest

  abbrev pub has_dir : Text → List (Text × Bool) → Bool
  has_dir name [] = false
  has_dir name ((n, is_dir) ∷ rest) = (is_dir && text_eq n name) || has_dir name rest

  -- A directory among the entries, and the log in it.
  pub record HasLog (entries : List (Text × Bool)) (path : Text) : Type 0 where
    pub name : Text
    pub listed : has_dir name entries ≡ true
    pub holds : has_log name ≡ true
    pub path_in : path ≡ log_in files (files.join dir name)

  -- By the logs that the directories hold: none, one, or more.
  abbrev pub Chosen : List (Text × Bool) → LogPath → Type 0
  Chosen entries (found path) =
      ((count_logs entries ≡ 0) × (path ≡ log_in files dir))
      ⊎ ((count_logs entries ≡ 1) × HasLog entries path)
  Chosen entries several_logs = 2 ≤ count_logs entries
  Chosen entries unreadable_dir = ⊥

  abbrev pub Resolves : Bool → Option (List (Text × Bool)) → LogPath → Type 0
  Resolves true entries x = x ≡ found (log_in files dir)
  Resolves false none x = x ≡ unreadable_dir
  Resolves false (some entries) x = Chosen entries x

  abbrev lengths : List Text → ℕ
  lengths [] = 0
  lengths (p ∷ ps) = suc (lengths ps)

  abbrev AllLogs : List (Text × Bool) → List Text → Type 0
  AllLogs entries [] = Unit {0}
  AllLogs entries (p ∷ ps) = HasLog entries p × AllLogs entries ps

  HasLog-later :
      (x : Text × Bool) (entries : List (Text × Bool)) (p : Text)
      → HasLog entries p
      → HasLog (x ∷ entries) p
  HasLog-later (n, d) entries p h = record {
    name = h.name;
    listed = ground (arith, h.listed);
    holds = h.holds;
    path_in = h.path_in;
  }

  AllLogs-later :
      (x : Text × Bool) (entries : List (Text × Bool)) (ps : List Text)
      → AllLogs entries ps
      → AllLogs (x ∷ entries) ps
  AllLogs-later x entries [] h = tt
  AllLogs-later x entries (p ∷ ps) (h, hs) =
      (HasLog-later x entries p h, AllLogs-later x entries ps hs)

  record Collects (entries : List (Text × Bool)) (ps : List Text) : Type 0 where
    all : AllLogs entries ps
    count : lengths ps ≡ count_logs entries

  plugin_logs-Collects :
      (entries : List (Text × Bool)) → Collects entries (plugin_logs files dir entries)
  unfolding plugin_logs
  plugin_logs-Collects [] = record { all = tt; count = refl }
  plugin_logs-Collects ((name, is_dir) ∷ rest) =
      let r = plugin_logs-Collects rest in
      elim (Bool-cases (is_dir && has_log name)) [
        | inl h ↦ record {
          all = rw h (
            record {
              name = name;
              listed = ground (arith, h, text_eq_refl name);
              holds = ground (arith, h);
              path_in = refl;
            },
            AllLogs-later (name, is_dir) rest (plugin_logs files dir rest) r.all,
          );
          count = rw h (ground (arith, r.count));
        }
        | inr h ↦ record {
          all = rw h (AllLogs-later (name, is_dir) rest (plugin_logs files dir rest) r.all);
          count = rw h (ground (arith, r.count));
        }
      ]

  choose_log-Chosen :
      (entries : List (Text × Bool)) (ps : List Text)
      → Collects entries ps
      → Chosen entries (choose_log (log_in files dir) ps)
  choose_log-Chosen entries [] c = inl (ground (arith, c.count), refl)
  choose_log-Chosen entries (p ∷ []) c = inr (ground (arith, c.count), c.all.0)
  choose_log-Chosen entries (p ∷ (q ∷ ps)) c = ground (arith, c.count)

  log_of_entries-Resolves :
      (o : Option (List (Text × Bool))) → Resolves false o (log_of_entries files dir o)
  log_of_entries-Resolves none = refl
  log_of_entries-Resolves (some entries) =
      choose_log-Chosen entries (plugin_logs files dir entries) (plugin_logs-Collects entries)

-- Without a plugin id: the log in the runtime directory itself, if it is there; else, if the directory
-- cannot be read, an error; else the one log that its directories hold, the missing log of the runtime
-- directory if they hold none, and an error exactly if they hold two or more.
pub resolve_log_path-Resolves :
    (files : Files) (dir : Text)
    → Resolves files dir
        (files.exists (log_in files dir))
        (files.read_dir dir)
        (resolve_log_path files dir [])
unfolding resolve_log_path
resolve_log_path-Resolves files dir = elim (Bool-cases (files.exists (log_in files dir))) [
  | inl h ↦ rw h refl
  | inr h ↦ rw h (log_of_entries-Resolves files dir (files.read_dir dir))
]
