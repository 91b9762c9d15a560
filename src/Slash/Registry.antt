-- ===== src/Slash/Registry.antt =====
-- internal/kernel/slash/registry.go: commands by name. A handler is a parameter; none is a nil
-- handler.
pub mod Laws
use maven.Base.{Bool, Option, none, some, List, [], ◌∷◌, not, if◌then◌else◌, is_empty, is_some}
use maven.Base.Assoc.{lookup, insert}
use maven.Base.Result.{Result, ok, err}
use maven.Base.Text.{Text, trim_space, text_eq}
use maven.Base.Unicode.{Unicode, to_lower}
use maven.Slash.Parser.{valid_name}

-- `Definition`.
pub record Definition : Type 0 where
  pub name : Text
  pub description : Text

pub data RegisterError : Type 0 where
  empty_name invalid_name nil_handler duplicate : RegisterError

module _ (H : Type 0) where
  -- `Registry`.
  abbrev pub Registry : Type 0
  Registry = List (Text × (Definition × H))

-- The key of a command.
unfoldable pub command_key : Unicode → Text → Text
unfolding to_lower trim_space
command_key u name = to_lower u (trim_space name)

module _ (u : Unicode) {H : Type 0} where
  -- `Register`: the registry after it.
  unfoldable pub register : Definition → Option H → Registry H → Result RegisterError (Registry H)
  unfolding command_key lookup insert text_eq
  register def handler r =
      let name = command_key u def.name in
      if is_empty name
      then err empty_name
      else if not (valid_name name)
      then err invalid_name
      else elim handler [
        | none ↦ err nil_handler
        | some h ↦
            if is_some (lookup name r)
            then err duplicate
            else ok (insert name (record def { name = name }, h) r)
      ]

  -- `Lookup`.
  unfoldable pub lookup_handler : Text → Registry H → Option H
  unfolding command_key lookup
  lookup_handler name r = elim (lookup (command_key u name) r) [ none ↦ none | some e ↦ some e.1 ]
