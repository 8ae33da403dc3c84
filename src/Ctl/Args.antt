-- ===== src/Ctl/Args.antt =====
-- cmd/rpcpluginctl/args.go: the command and the arguments around it. The two maps are lists of
-- their keys.
use rpc_plugin_system.Prelude.{
  Bool, false, ◌||◌, List, [], ◌∷◌, ◌++◌, Text, codes, text_eq, ◌==◌, if◌then◌else◌,
}

abbrev pub flags_with_values : List Text
flags_with_values =
    codes "-runtime-dir"
    ∷ codes "-plugin-id"
    ∷ codes "-message"
    ∷ codes "-level"
    ∷ codes "-component"
    ∷ codes "-event"
    ∷ codes "-method"
    ∷ codes "-generation"
    ∷ codes "-capability"
    ∷ codes "-operation"
    ∷ codes "-correlation"
    ∷ codes "-limit"
    ∷ codes "-format"
    ∷ codes "-since"
    ∷ []

abbrev pub bool_flags : List Text
bool_flags = codes "-reverse" ∷ (codes "-summary" ∷ [])

abbrev pub is_key : Text → List Text → Bool
is_key t [] = false
is_key t (k ∷ ks) = text_eq t k || is_key t ks

-- The second loop of takesValue returns false on every path.
unfoldable pub takes_value : Text → Bool
takes_value arg = is_key arg flags_with_values

abbrev pub is_bool_setting : Text → List Text → Bool
is_bool_setting t [] = false
is_bool_setting t (k ∷ ks) =
    text_eq t (k ++ codes "=true") || (text_eq t (k ++ codes "=false") || is_bool_setting t ks)

unfoldable pub is_bool_flag : Text → Bool
is_bool_flag arg = is_key arg bool_flags || is_bool_setting arg bool_flags

abbrev pub has_dash : Text → Bool
has_dash [] = false
has_dash (c ∷ s) = c == 45

abbrev pub is_dashes : Text → Bool
is_dashes arg = text_eq arg (codes "--")

-- An argument that the loop steps over by itself.
unfoldable pub is_skipped : Text → Bool
unfolding is_bool_flag
is_skipped arg = is_bool_flag arg || has_dash arg

-- The loop, `before` being args[:i]; a flag with a value steps over two.
unfoldable pub split_loop : List Text → List Text → Text × List Text
unfolding takes_value is_skipped
split_loop before [] = ([], before)
split_loop before (arg ∷ []) =
    if is_dashes arg
    then ([], before)
    else if takes_value arg || is_skipped arg
    then ([], before ++ arg ∷ [])
    else (arg, before)
split_loop before (arg ∷ (next ∷ rest)) =
    let skip_two = split_loop (before ++ arg ∷ (next ∷ [])) rest in
    let skip_one = split_loop (before ++ arg ∷ []) (next ∷ rest) in
    if is_dashes arg
    then (next, before ++ rest)
    else if takes_value arg
    then skip_two
    else if is_skipped arg
    then skip_one
    else (arg, before ++ next ∷ rest)

unfoldable pub split_command_args : List Text → Text × List Text
split_command_args args = split_loop [] args
