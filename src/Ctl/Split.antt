-- ===== src/Ctl/Split.antt =====
-- cmd/rpcpluginctl/args.go: splitCommandArgs finds the command between its flags.
use rpc_plugin_system.Prelude.{
  ◌≡◌, refl, sym, ◌∙◌, ap, Bool, true, false, List, [], ◌∷◌, ◌++◌, Text, codes, arith,
}
use mathlib.Core.List.{append-nil, append_assoc}
use rpc_plugin_system.Ctl.Args.{
  takes_value, has_dash, is_dashes, is_bool_flag, is_skipped, split_loop, split_command_args,
}

-- A flag with the value that follows it, or a flag by itself.
pub data Flag : Type 0 where
  valued : Text → Text → Flag
  bare : Text → Flag

abbrev pub printed : List Flag → List Text
printed [] = []
printed (valued name value ∷ fs) = name ∷ (value ∷ printed fs)
printed (bare name ∷ fs) = name ∷ printed fs

abbrev pub IsFlag : Flag → Type 0
IsFlag (valued name value) = (is_dashes name ≡ false) × (takes_value name ≡ true)
IsFlag (bare name) = (is_dashes name ≡ false) × (takes_value name ≡ false) × (has_dash name ≡ true)

abbrev pub AreFlags : List Flag → Type 0
AreFlags [] = Unit {0}
AreFlags (f ∷ fs) = IsFlag f × AreFlags fs

-- A command begins with no dash.
plain-takes_value : (cmd : Text) → has_dash cmd ≡ false → takes_value cmd ≡ false
unfolding takes_value
plain-takes_value [] h = refl
plain-takes_value (c ∷ s) h = rw h refl

plain-is_skipped : (cmd : Text) → has_dash cmd ≡ false → is_skipped cmd ≡ false
unfolding is_skipped is_bool_flag
plain-is_skipped [] h = refl
plain-is_skipped (c ∷ s) h = rw h refl

plain-is_dashes : (cmd : Text) → has_dash cmd ≡ false → is_dashes cmd ≡ false
plain-is_dashes [] h = refl
plain-is_dashes (c ∷ s) h = rw h refl

dash-is_skipped : (name : Text) → has_dash name ≡ true → is_skipped name ≡ true
unfolding is_skipped
dash-is_skipped name h = ground (arith, h)

split_loop-plain :
    (before : List Text) (cmd : Text) (rest : List Text)
    → has_dash cmd ≡ false
    → split_loop before (cmd ∷ rest) ≡ (cmd, before ++ rest)
unfolding split_loop
split_loop-plain before cmd [] h =
    rw (plain-is_dashes cmd h, plain-takes_value cmd h, plain-is_skipped cmd h, append-nil before)
      refl
split_loop-plain before cmd (r ∷ rest) h =
    rw (plain-is_dashes cmd h, plain-takes_value cmd h, plain-is_skipped cmd h) refl

abbrev has_items : List Text → Bool
has_items [] = false
has_items (a ∷ t) = true

printed-has_items :
    (fs : List Flag) (cmd : Text) (rest : List Text) → has_items (printed fs ++ cmd ∷ rest) ≡ true
printed-has_items [] cmd rest = refl
printed-has_items (valued name value ∷ fs) cmd rest = refl
printed-has_items (bare name ∷ fs) cmd rest = refl

split_loop-bare :
    (before : List Text) (name : Text) (t : List Text)
    → IsFlag (bare name)
    → has_items t ≡ true
    → split_loop before (name ∷ t) ≡ split_loop (before ++ name ∷ []) t
split_loop-bare before name [] f h = ground (arith, h)
split_loop-bare before name (next ∷ rest) (d, v, h) e =
    unfold split_loop in rw (d, v, dash-is_skipped name h) refl

split_loop-valued :
    (before : List Text) (name value : Text) (t : List Text)
    → IsFlag (valued name value)
    → split_loop before (name ∷ (value ∷ t)) ≡ split_loop (before ++ name ∷ (value ∷ [])) t
split_loop-valued before name value t (d, v) = unfold split_loop in rw (d, v) refl

-- The loop steps over all flags.
split_loop-flags :
    (before : List Text) (fs : List Flag) (cmd : Text) (rest : List Text)
    → AreFlags fs
    → split_loop before (printed fs ++ cmd ∷ rest) ≡ split_loop (before ++ printed fs) (cmd ∷ rest)
split_loop-flags before [] cmd rest f =
    ap (λ b. split_loop b (cmd ∷ rest)) (sym (append-nil before))
split_loop-flags before (valued name value ∷ fs) cmd rest (f, fs_ok) =
    split_loop-valued before name value (printed fs ++ cmd ∷ rest) f
    ∙ (split_loop-flags (before ++ name ∷ (value ∷ [])) fs cmd rest fs_ok
        ∙ ap (λ b. split_loop b (cmd ∷ rest))
            (append_assoc before (name ∷ (value ∷ [])) (printed fs)))
split_loop-flags before (bare name ∷ fs) cmd rest (f, fs_ok) =
    split_loop-bare before name (printed fs ++ cmd ∷ rest) f (printed-has_items fs cmd rest)
    ∙ (split_loop-flags (before ++ name ∷ []) fs cmd rest fs_ok
        ∙ ap (λ b. split_loop b (cmd ∷ rest)) (append_assoc before (name ∷ []) (printed fs)))

split_loop-dashes :
    (before : List Text) (cmd : Text) (rest : List Text)
    → split_loop before (codes "--" ∷ (cmd ∷ rest)) ≡ (cmd, before ++ rest)
unfolding split_loop
split_loop-dashes before cmd rest = refl

-- After flags that are listed with their values, or begin with a dash and take none, the command is
-- the next argument, if it does not begin with a dash, or whatever follows "--"; the other arguments
-- are left in their order, and "--" is dropped.
pub split_command_args-finds :
    (fs : List Flag) (cmd any : Text) (rest : List Text)
    → AreFlags fs
    → has_dash cmd ≡ false
    → (split_command_args (printed fs ++ cmd ∷ rest) ≡ (cmd, printed fs ++ rest))
      × (split_command_args (printed fs ++ codes "--" ∷ (any ∷ rest)) ≡ (any, printed fs ++ rest))
unfolding split_command_args
split_command_args-finds fs cmd any rest f h = (
  split_loop-flags [] fs cmd rest f ∙ split_loop-plain (printed fs) cmd rest h,
  split_loop-flags [] fs (codes "--") (any ∷ rest) f ∙ split_loop-dashes (printed fs) any rest,
)
