-- ===== src/Slash/Registry/Laws.antt =====
-- internal/kernel/slash/registry.go: what `Register` does to `Lookup`.
use maven.Base.{
  true, none, some, ◌≡◌, refl, subst, inl, inr, Bool-cases, Option-cases, if◌then◌else◌, is_empty,
}
use maven.Base.Assoc.{lookup, insert, lookup-insert}
use maven.Base.Result.{Result, ok, err}
use maven.Base.Text.{Text, text_eq}
use maven.Base.Unicode.{Unicode}
use maven.Slash.Parser.{valid_name}
use maven.Slash.Registry.{
  Definition, Registry, RegisterError, command_key, register, lookup_handler,
}

module _ (u : Unicode) {H : Type 0} where
  -- What a registration without an error has done.
  pub record Registered (def : Definition) (h : H) (r q : Registry H) : Type 0 where
    pub fresh : lookup_handler u def.name r ≡ none
    pub named : valid_name (command_key u def.name) ≡ true
    pub found :
        (name : Text)
        → lookup_handler u name q ≡ (
            if text_eq (command_key u def.name) (command_key u name)
            then some h
            else lookup_handler u name r)

  abbrev Good : Definition → H → Registry H → Result RegisterError (Registry H) → Type 0
  Good def h r (err e) = Unit
  Good def h r (ok q) = Registered def h r q

  inserted :
      (def : Definition) (h : H) (r : Registry H)
      → lookup (command_key u def.name) r ≡ none
      → valid_name (command_key u def.name) ≡ true
      → Registered def h r
          (insert (command_key u def.name) (record def { name = command_key u def.name }, h) r)
  unfolding lookup_handler
  inserted def h r l v = record {
    fresh = rw (lookup_handler, l) refl;
    named = v;
    found = λ name. elim (Bool-cases (text_eq (command_key u def.name) (command_key u name))) [
      | inl e ↦
          rw
            (
              lookup_handler,
              lookup_handler,
              lookup-insert (command_key u def.name) (command_key u name) _ r,
              e,
            )
            refl
      | inr e ↦
          rw
            (
              lookup_handler,
              lookup_handler,
              lookup-insert (command_key u def.name) (command_key u name) _ r,
              e,
            )
            refl
    ];
  }

  register-Good :
      (def : Definition) (h : H) (r : Registry H) → Good def h r (register u def (some h) r)
  unfolding register
  register-Good def h r =
      let name = command_key u def.name in
      elim (Bool-cases (is_empty name)) [
        | inl e ↦ rw e tt
        | inr e ↦ elim (Bool-cases (valid_name name)) [
          | inr v ↦ rw (e, v) tt
          | inl v ↦ elim (Option-cases (lookup name r)) [
            | inr (a, l) ↦ rw (e, v, l) tt
            | inl l ↦ rw (e, v, l) (inserted def h r l v)
          ]
        ]
      ]

  -- A `Register` that gives no error had a new and valid name, and from then on `Lookup` gives the
  -- handler for exactly the spellings of that name and what it gave before for all others.
  pub register-Registered :
      (def : Definition) (h : H) (r q : Registry H)
      → register u def (some h) r ≡ ok q
      → Registered def h r q
  register-Registered def h r q e = subst (Good def h r) e (register-Good def h r)
