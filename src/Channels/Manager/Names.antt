-- ===== src/Channels/Manager/Names.antt =====
-- internal/kernel/channels/manager/manager.go: which channels of the registry `Apply` takes.
use maven.Base.{
  true, false, Option, none, some, List, [], ◌∷◌, ◌++◌, ◌≡◌, refl, sym, ◌∙◌, ap, subst, arith, inl,
  inr, Bool-cases, Option-cases, All, is_empty, is_some, append_assoc, append-nil,
}
use maven.Base.Assoc.{lookup, insert}
use maven.Base.Result.{Result, ok, err}
use maven.Base.Text.{Text, text_eq}
use maven.Base.Text.Laws.{text_eq_iff}
use maven.Base.Text.Trimming.{IsTrimmed}
use maven.Channels.Manager.{
  Operations, Table, ManagerError, Wanted, no_config, invalid, no_registry, wanted, channels_from,
}

-- Keys that the bus does not trim further.
abbrev pub AllTrimmed : {C : Type 0} → Table C → Type 0
AllTrimmed t = All (λ e. IsTrimmed e.0) t

-- No name is empty, and none stands before, in the table `out` or in this one.
abbrev pub Fits : {C : Type 0} → Table C → Table C → Type 0
Fits out [] = Unit
Fits out ((n, c) ∷ t) = (is_empty n ≡ false) × (lookup n out ≡ none) × Fits (out ++ (n, c) ∷ []) t

-- No name stands twice.
abbrev pub IsUnique : {C : Type 0} → Table C → Type 0
IsUnique [] = Unit
IsUnique ((n, c) ∷ t) = (lookup n t ≡ none) × IsUnique t

module _ {C : Type 0} where
  lookup-before :
      (n : Text) (out : Table C) (e : Text × C)
      → is_some (lookup n out) ≡ true
      → is_some (lookup n (out ++ e ∷ [])) ≡ true
  unfolding lookup
  lookup-before n [] e h = absurd (ground arith)
  lookup-before n ((m, d) ∷ out) e h = elim (Bool-cases (text_eq m n)) [
    | inl q ↦ rw q refl
    | inr q ↦ rw q (lookup-before n out e (ground arith))
  ]

  lookup-last : (n : Text) (out : Table C) (c : C) → is_some (lookup n (out ++ (n, c) ∷ [])) ≡ true
  unfolding lookup
  lookup-last n [] c = rw ((text_eq_iff n n).1 refl) refl
  lookup-last n ((m, d) ∷ out) c = elim (Bool-cases (text_eq m n)) [
    | inl q ↦ rw q refl
    | inr q ↦ rw q (lookup-last n out c)
  ]

  -- A name that stood before does not come again.
  Fits-lookup :
      (n : Text) (out t : Table C) → is_some (lookup n out) ≡ true → Fits out t → lookup n t ≡ none
  unfolding lookup
  Fits-lookup n out [] h f = refl
  Fits-lookup n out ((m, d) ∷ t) h (fe, fl, fs) = elim (Bool-cases (text_eq m n)) [
    | inl q ↦
        absurd (
          ground
            (arith, subst (λ k. is_some (lookup k out) ≡ true) (sym ((text_eq_iff m n).0 q)) h))
    | inr q ↦ rw q (Fits-lookup n (out ++ (m, d) ∷ []) t (lookup-before n out (m, d) h) fs)
  ]

  pub Fits-IsUnique : (out t : Table C) → Fits out t → IsUnique t
  Fits-IsUnique out [] f = tt
  Fits-IsUnique out ((n, c) ∷ t) (fe, fl, fs) = (
    Fits-lookup n (out ++ (n, c) ∷ []) t (lookup-last n out c) fs,
    Fits-IsUnique (out ++ (n, c) ∷ []) t fs,
  )

  insert-fresh :
      (n : Text) (c : C) (t : Table C) → lookup n t ≡ none → insert n c t ≡ t ++ (n, c) ∷ []
  unfolding lookup insert
  insert-fresh n c [] h = refl
  insert-fresh n c ((m, d) ∷ t) h = elim (Bool-cases (text_eq m n)) [
    | inl q ↦ absurd (ground arith)
    | inr q ↦ rw q (ap (λ (x : Table C). (m, d) ∷ x) (insert-fresh n c t (ground arith)))
  ]

module _ {C V B : Type 0} (ops : Operations C V B) where
  -- The channels of the registry that are not nil, under their names.
  abbrev pub named : List (Option C) → Table C
  named [] = []
  named (none ∷ cs) = named cs
  named (some c ∷ cs) = (ops.name c, c) ∷ named cs

  abbrev pub AllNamed : Wanted C → Type 0
  AllNamed no_config = Unit
  AllNamed invalid = Unit
  AllNamed no_registry = Unit
  AllNamed (wanted cs) = AllTrimmed (named cs)

  -- What the registry's channels come to behind the table `out`.
  abbrev pub Reads : List (Option C) → Table C → Result ManagerError (Table C) → Type 0
  Reads cs out (err e) = ¬ Fits out (named cs)
  Reads cs out (ok t) = (t ≡ out ++ named cs) × Fits out (named cs)

  one_read :
      (c : C) (cs : List (Option C)) (out : Table C) (r : Result ManagerError (Table C))
      → is_empty (ops.name c) ≡ false
      → lookup (ops.name c) out ≡ none
      → Reads cs (out ++ (ops.name c, c) ∷ []) r
      → Reads (some c ∷ cs) out r
  one_read c cs out (err e) full fresh h = λ f. h f.2
  one_read c cs out (ok t) full fresh (q, f) =
      (q ∙ append_assoc out ((ops.name c, c) ∷ []) (named cs), (full, fresh, f))

  pub channels_from-Reads :
      (cs : List (Option C)) (out : Table C) → Reads cs out (channels_from ops cs out)
  unfolding channels_from
  channels_from-Reads [] out = (sym (append-nil out), tt)
  channels_from-Reads (none ∷ cs) out = channels_from-Reads cs out
  channels_from-Reads (some c ∷ cs) out = elim (Bool-cases (is_empty (ops.name c))) [
    | inl e ↦ rw (Reads, e) (λ f. ground arith)
    | inr e ↦ elim (Option-cases (lookup (ops.name c) out)) [
      | inr (d, q) ↦ rw (Reads, e, q) (λ f. ground arith)
      | inl q ↦
          rw (Reads, e, q)
            (one_read c cs out (channels_from ops cs (insert (ops.name c) c out)) e q (
              subst (λ (x : Table C). Reads cs x (channels_from ops cs (insert (ops.name c) c out)))
                (insert-fresh (ops.name c) c out q)
                (channels_from-Reads cs (insert (ops.name c) c out))))
    ]
  ]
