-- ===== src/Plugin/Guarded.antt =====
-- pkg/plugin/plugin.go: nothing is served before the one token is used, and it is used once.
use rpc_plugin_system.Prelude.{
  ℕ, ◌+◌, ◌≡◌, ◌↔◌, refl, ◌∙◌, Bool, true, false, not, ◌||◌, Option, none, some, List, [], ◌∷◌,
  Text, codes, text_eq_iff, arith, if_cases,
}
use rpc_plugin_system.Kernel.Types.{Method}
use rpc_plugin_system.Plugin.Server.{
  Outcome, returned, raised, Core, Server, Request, auths, lists, beats, shuts, echoes, sleeps,
  crashes, Response, identified, listed_as, beat, said, empty, Answer, given, failed, check_token,
  hooked, after_hook, authenticate, require_auth, answer_of, call_core, call_optional, apply_to,
  list_capabilities, handle, serve, note_info, log_rpc, equal_token,
}

abbrev pub count : Bool → ℕ
count true = 1
count false = 0

-- Whether an answer is that of a successful Auth.
abbrev pub is_identified : Answer → Bool
is_identified (given (identified i)) = true
is_identified (given (listed_as c)) = false
is_identified (given (beat b)) = false
is_identified (given (said t)) = false
is_identified (given empty) = false
is_identified (failed e) = false

abbrev pub is_given : Answer → Bool
is_given (given r) = true
is_given (failed e) = false

abbrev pub identified_in : List Answer → ℕ
identified_in [] = 0
identified_in (a ∷ as') = count (is_identified a) + identified_in as'

abbrev pub given_in : List Answer → ℕ
given_in [] = 0
given_in (a ∷ as') = count (is_given a) + given_in as'

-- The calls of the hook, if there is one, for a request.
abbrev has_hook : Option (Outcome (Unit {0})) → ℕ
has_hook none = 0
has_hook (some out) = 1

abbrev pub hooks_for : Core → Request → ℕ
hooks_for core (auths token) = has_hook core.auth_hook
hooks_for core r = 0

-- The Auth requests to a plugin with a hook.
abbrev pub hooks_in : List (Core × Request) → ℕ
hooks_in [] = 0
hooks_in ((core, r) ∷ rs) = hooks_for core r + hooks_in rs

-- What one request does to the guard.
record Step (s : Server) (hooks : ℕ) (x : Answer × Server) : Type 0 where
  hooked : x.1.hook_calls ≡ s.hook_calls + hooks
  cfg : x.1.cfg ≡ s.cfg
  once : count (is_identified x.0) + count s.auth_used ≡ count x.1.auth_used
  shut : x.1.auth_used ≡ false → (is_given x.0 ≡ false) × (x.1.calls ≡ s.calls)

check_token-Step : (core : Core) (token : Text) (s : Server) → Step s 0 (check_token core token s)
unfolding check_token
check_token-Step core token s =
    if_cases (Step s 0) (s.auth_used || not (equal_token token s.cfg.auth_token))
      (λ h. record {
        hooked = omega arith;
        cfg = refl;
        once = omega arith;
        shut = λ e. (refl, refl);
      })
      (λ h. record { hooked = omega arith; cfg = refl; once = ground (arith, h); shut = λ e. cc })

after_hook-Step :
    (core : Core) (token : Text) (hook : Option (Outcome (Unit {0}))) (s : Server)
    → Step s (has_hook hook) (after_hook core token hook s)
after_hook-Step core token none s = check_token-Step core token s
after_hook-Step core token (some (returned u)) s =
    let step = check_token-Step core token (hooked s) in
    record {
      hooked = omega (arith, step.hooked);
      cfg = step.cfg;
      once = step.once;
      shut = step.shut;
    }
after_hook-Step core token (some (raised e)) s = record {
  hooked = omega arith;
  cfg = refl;
  once = omega arith;
  shut = λ h. (refl, refl);
}

authenticate-Step :
    (core : Core) (token : Text) (s : Server)
    → Step s (has_hook core.auth_hook) (authenticate core token s)
unfolding authenticate
authenticate-Step core token s =
    let step = after_hook-Step core token core.auth_hook (
      note_info (codes "plugin_auth_attempt") Method.auth (codes "plugin auth attempt received")
        s) in
    record { hooked = step.hooked; cfg = step.cfg; once = step.once; shut = step.shut }

-- A handler that keeps an open server open, and does not identify.
record Keeps (s : Server) (x : Answer × Server) : Type 0 where
  hooks : x.1.hook_calls ≡ s.hook_calls
  cfg : x.1.cfg ≡ s.cfg
  other : is_identified x.0 ≡ false
  stays : x.1.auth_used ≡ s.auth_used

require_auth-Step :
    (method : Method) (handler : Server → Answer × Server) (s : Server)
    → Keeps s (handler s)
    → Step s 0 (require_auth method handler s)
unfolding require_auth
require_auth-Step method handler s k =
    if_cases (Step s 0) s.auth_used
      (λ h. record {
        hooked = ground (arith, k.hooks);
        cfg = k.cfg;
        once = ground (arith, k.other, k.stays);
        shut = λ e. absurd (ground (arith, h, e, k.stays));
      })
      (λ h. record {
        hooked = omega arith;
        cfg = refl;
        once = omega arith;
        shut = λ e. (refl, refl);
      })

-- Answers of the plugin's own code are not identities.
answer_of-other :
    {A : Type 0} (f : A → Response) (out : Outcome A)
    → ((a : A) → is_identified (given (f a)) ≡ false)
    → is_identified (answer_of f out) ≡ false
answer_of-other f (returned a) h = h a
answer_of-other f (raised e) h = refl

log_rpc-Keeps :
    (method : Method) (a : Answer) (s s' : Server)
    → is_identified a ≡ false
    → s'.hook_calls ≡ s.hook_calls
    → s'.cfg ≡ s.cfg
    → s'.auth_used ≡ s.auth_used
    → Keeps s (a, log_rpc method a s')
log_rpc-Keeps method (given r) s s' h n c u = record { hooks = n; cfg = c; other = h; stays = u }
log_rpc-Keeps method (failed e) s s' h n c u = record { hooks = n; cfg = c; other = h; stays = u }

call_core-Keeps :
    {A : Type 0} (method : Method) (f : A → Response) (out : Outcome A) (s s' : Server)
    → ((a : A) → is_identified (given (f a)) ≡ false)
    → s'.hook_calls ≡ s.hook_calls
    → s'.cfg ≡ s.cfg
    → s'.auth_used ≡ s.auth_used
    → Keeps s (call_core method f out s')
call_core-Keeps method f out s s' h n c u =
    log_rpc-Keeps method (answer_of f out) s (record s' { calls = method ∷ s'.calls })
      (answer_of-other f out h) n c u

call_optional-Keeps :
    {A : Type 0} (method : Method) (f : A → Response) (o : Option (Outcome A)) (s : Server)
    → ((a : A) → is_identified (given (f a)) ≡ false)
    → Keeps s (call_optional method f o s)
call_optional-Keeps method f none s h = log_rpc-Keeps method _ s s refl refl refl refl
call_optional-Keeps method f (some out) s h = call_core-Keeps method f out s s h refl refl refl

handle-Step : (core : Core) (r : Request) (s : Server) → Step s (hooks_for core r) (handle core r s)
unfolding handle
handle-Step core (auths token) s = authenticate-Step core token s
handle-Step core lists s =
    require_auth-Step Method.capabilities (list_capabilities core) s
      (unfold list_capabilities in record { hooks = refl; cfg = refl; other = refl; stays = refl })
handle-Step core beats s =
    require_auth-Step Method.heartbeat (call_core Method.heartbeat beat core.heartbeat) s
      (call_core-Keeps Method.heartbeat beat core.heartbeat s s (λ a. refl) refl refl refl)
handle-Step core shuts s =
    require_auth-Step Method.shutdown
      (λ x.
        call_core Method.shutdown (λ _. empty) core.shutdown
          (note_info (codes "plugin_shutdown_called") Method.shutdown
            (codes "plugin shutdown requested") x))
      s
      (call_core-Keeps Method.shutdown (λ _. empty) core.shutdown s
        (note_info (codes "plugin_shutdown_called") Method.shutdown
          (codes "plugin shutdown requested") s)
        (λ a. refl) refl refl refl)
handle-Step core (echoes m) s =
    require_auth-Step Method.echo (call_optional Method.echo said (apply_to m core.echo)) s
      (call_optional-Keeps Method.echo said (apply_to m core.echo) s (λ a. refl))
handle-Step core (sleeps d) s =
    require_auth-Step Method.sleep (call_optional Method.sleep (λ _. empty) (apply_to d core.sleep))
      s (call_optional-Keeps Method.sleep (λ _. empty) (apply_to d core.sleep) s (λ a. refl))
handle-Step core (crashes c) s =
    require_auth-Step Method.crash (call_optional Method.crash (λ _. empty) (apply_to c core.crash))
      s (call_optional-Keeps Method.crash (λ _. empty) (apply_to c core.crash) s (λ a. refl))

-- The guard over all requests so far.
record Guards (s : Server) (hooks : ℕ) (x : List Answer × Server) : Type 0 where
  hooked : x.1.hook_calls ≡ s.hook_calls + hooks
  cfg : x.1.cfg ≡ s.cfg
  once : identified_in x.0 + count s.auth_used ≡ count x.1.auth_used
  shut : x.1.auth_used ≡ false → (given_in x.0 ≡ 0) × (x.1.calls ≡ s.calls)

serve-Guards : (rs : List (Core × Request)) (s : Server) → Guards s (hooks_in rs) (serve rs s)
unfolding serve
serve-Guards [] s = record {
  hooked = omega arith;
  cfg = refl;
  once = omega arith;
  shut = λ h. (refl, refl);
}
serve-Guards ((core, r) ∷ rs) s =
    let one = handle-Step core r s in
    let all = serve-Guards rs (handle core r s).1 in
    record {
      hooked = omega (arith, one.hooked, all.hooked);
      cfg = all.cfg ∙ one.cfg;
      once = omega (arith, one.once, all.once);
      shut = λ h.
          let before : (handle core r s).1.auth_used ≡ false = still_shut _ _ _ all.once h in
          let (none_given, same) = all.shut h in
          let (refused, kept) = one.shut before in
          (ground (arith, none_given, refused), same ∙ kept);
    }
  where
    still_shut : (n : ℕ) (b c : Bool) → n + count b ≡ count c → c ≡ false → b ≡ false
    still_shut n b c e h = ground (arith, e, h)

-- What holds while the token is unused.
abbrev pub Shut : Bool → Server → List Answer × Server → Type 0
Shut true s x = Unit {0}
Shut false s x = (given_in x.0 ≡ 0) × (x.1.calls ≡ s.calls)

pub record IsGuarded (rs : List (Core × Request)) (s : Server) (x : List Answer × Server)
    : Type 0 where
  pub hooked : x.1.hook_calls ≡ s.hook_calls + hooks_in rs
  pub cfg : x.1.cfg ≡ s.cfg
  pub once : identified_in x.0 + count s.auth_used ≡ count x.1.auth_used
  pub shut : Shut x.1.auth_used s x

Shut-by :
    (b : Bool) (s : Server) (x : List Answer × Server)
    → (b ≡ false → (given_in x.0 ≡ 0) × (x.1.calls ≡ s.calls))
    → Shut b s x
Shut-by true s x h = tt
Shut-by false s x h = h refl

-- Whatever requests arrive at a server and whatever the plugin's own code answers: Auth succeeds at
-- most once, and not at all if the token has been used before; and as long as no Auth has succeeded,
-- no request of any kind is answered but with an error, and no method of the plugin is called for one
-- but its hook on Auth, which is called once for each Auth request to a plugin that has it.
pub serve-IsGuarded : (rs : List (Core × Request)) (s : Server) → IsGuarded rs s (serve rs s)
serve-IsGuarded rs s =
    let g = serve-Guards rs s in
    record {
      hooked = g.hooked;
      cfg = g.cfg;
      once = g.once;
      shut = Shut-by (serve rs s).1.auth_used s (serve rs s) g.shut;
    }

-- The hook lets a request through.
abbrev pub lets_through : Option (Outcome (Unit {0})) → Bool
lets_through none = true
lets_through (some (returned u)) = true
lets_through (some (raised e)) = false

check_token-accepts :
    (core : Core) (token : Text) (s : Server)
    → is_identified (check_token core token s).0 ≡ true
      ↔ ((s.auth_used ≡ false) × (token ≡ s.cfg.auth_token))
unfolding check_token
check_token-accepts core token s = ground (arith, text_eq_iff token s.cfg.auth_token)

after_hook-accepts :
    (core : Core) (token : Text) (hook : Option (Outcome (Unit {0}))) (s : Server)
    → is_identified (after_hook core token hook s).0 ≡ true
      ↔ ((lets_through hook ≡ true) × (s.auth_used ≡ false) × (token ≡ s.cfg.auth_token))
after_hook-accepts core token none s = ground (arith, check_token-accepts core token s)
after_hook-accepts core token (some (returned u)) s =
    ground (arith, check_token-accepts core token (hooked s))
after_hook-accepts core token (some (raised e)) s = ground arith

-- Auth succeeds exactly if the plugin's hook, where there is one, lets it through, no Auth has
-- succeeded before, and the token is, byte by byte, the one that the plugin was started with.
pub authenticate-accepts :
    (core : Core) (token : Text) (s : Server)
    → is_identified (authenticate core token s).0 ≡ true
      ↔ ((lets_through core.auth_hook ≡ true) × (s.auth_used ≡ false) × (token ≡ s.cfg.auth_token))
unfolding authenticate
authenticate-accepts core token s =
    after_hook-accepts core token core.auth_hook
      (note_info (codes "plugin_auth_attempt") Method.auth (codes "plugin auth attempt received") s)
