-- ===== src/Postaction/Compaction.antt =====
-- internal/kernel/agent/postaction/postaction.go: a compaction moves the chat to a new session that
-- starts with the summary, or leaves it where it was.
use maven.Base.{
  Bool, true, false, ◌||◌, ◌⊎◌, [], ◌∷◌, ◌++◌, ◌≡◌, ◌≢◌, refl, sym, ap, subst, ◌∙◌, arith, inl, inr,
  Bool-cases, if◌then◌else◌, is_empty,
}
use maven.Base.Assoc.{lookup}
use maven.Base.Result.{Result, ok, err, is_ok}
use maven.Base.Text.{Text, codes, trim_space, text_eq}
use maven.Base.Text.Laws.{text_eq_iff}
use maven.Base.Text.Trimming.{trim_space-IsTrimmed}
use maven.Sessionid.{Env, from_route_key, new, rotated, to_string}
use maven.Session.{Router, RouterError, rotate, set, current, resolve, old_session, entry, persist}
use maven.Session.Routing.{
  old-current, new-trim, rotate-Rotated, current-set, cleared, rotated_id, filled,
}
use maven.Slash.Dispatch.{CompactResponseMode}
use maven.Postaction.{
  Handler, PostError, Surroundings, compact, after_rotate, after_seed, seed_session_summary,
  set_router,
}

-- Without an error of a write, `Rotate` returns the old id and the new one.
rotate-ok :
    (env : Env) (saved : Bool) (r : Router) (key : Text)
    → trim_space key ≢ []
    → (is_empty r.path || saved) ≡ true
    → (rotate env saved r key).1 ≡ ok (old_session r (trim_space key), rotated_id env r key)
unfolding rotate persist
rotate-ok env saved r key ne w = elim (Bool-cases (is_empty r.path)) [
  | inl e ↦ rw (filled (trim_space key) ne, e) refl
  | inr e ↦ elim (Bool-cases saved) [
    | inl s ↦ rw (filled (trim_space key) ne, e, s) refl
    | inr s ↦ absurd (ground arith)
  ]
]

error_of :
    {A : Type 0} (r : Result RouterError A) → is_ok r ≡ false → (e : RouterError) × (r ≡ err e)
error_of (err e) h = (e, refl)
error_of (ok a) h = absurd (ground arith)

rotate-fails :
    (env : Env) (saved : Bool) (r : Router) (key : Text)
    → trim_space key ≢ []
    → (is_empty r.path || saved) ≡ false
    → (e : RouterError) × ((rotate env saved r key).1 ≡ err e)
rotate-fails env saved r key ne w =
    error_of (rotate env saved r key).1 ((rotate-Rotated env saved r key ne).reported ∙ w)

neither : (a b : Bool) → (a || b) ≡ true → a ≡ false → b ≡ false → ⊥
neither a b h p q = absurd (ground arith)

-- The old id that is put back is blank or the default only if the route had no entry.
default_old :
    (r : Router) (k : Text)
    → (is_empty (trim_space (old_session r k))
        || text_eq (trim_space (old_session r k)) (from_route_key k))
      ≡ true
    → trim_space (old_session r k) ≡ trim_space (from_route_key k)
default_old r k h = elim (Bool-cases (is_empty (trim_space (entry k r.sessions)))) [
  | inl e ↦ ap trim_space (plain e)
  | inr e ↦ elim (Bool-cases (text_eq (trim_space (old_session r k)) (from_route_key k))) [
    | inl q ↦
        sym (trim_space-IsTrimmed (old_session r k))
        ∙ ap trim_space ((text_eq_iff (trim_space (old_session r k)) (from_route_key k)).0 q)
    | inr q ↦ absurd (
        neither (is_empty (trim_space (old_session r k)))
          (text_eq (trim_space (old_session r k)) (from_route_key k)) h (rw (kept e) e) q)
  ]
]
  where
    plain : is_empty (trim_space (entry k r.sessions)) ≡ true → old_session r k ≡ from_route_key k
    plain e = unfold old_session in rw e refl

    kept :
        is_empty (trim_space (entry k r.sessions)) ≡ false
        → trim_space (old_session r k) ≡ trim_space (entry k r.sessions)
    kept e = unfold old_session in rw e (trim_space-IsTrimmed (entry k r.sessions))

old-cleared : (r : Router) (k : Text) → old_session (cleared r) k ≡ from_route_key k
unfolding old_session entry lookup trim_space
old-cleared r k = refl

abbrev is_default : Router → Text → Bool
is_default r k =
    is_empty (trim_space (old_session r k))
    || text_eq (trim_space (old_session r k)) (from_route_key k)

settled :
    (q r : Router) (key : Text)
    → trim_space (
        if is_default r (trim_space key)
        then current (cleared q) key
        else trim_space (old_session r (trim_space key)))
      ≡ trim_space (old_session r (trim_space key))
settled q r key = elim (Bool-cases (is_default r (trim_space key))) [
  | inl e ↦ rw e (
      sym (old-current (cleared q) key)
      ∙ (ap trim_space (old-cleared q (trim_space key)) ∙ sym (default_old r (trim_space key) e)))
  | inr e ↦ rw e (trim_space-IsTrimmed (old_session r (trim_space key)))
]

-- Setting the old id again resolves the route as before, up to spaces.
undone :
    (env : Env) (saved undo : Bool) (r : Router) (key : Text)
    → trim_space key ≢ []
    → trim_space
        (current (set undo (rotate env saved r key).0 key (old_session r (trim_space key))).0 key)
      ≡ trim_space (current r key)
undone env saved undo r key ne =
    let q = (rotate env saved r key).0 in
    ap trim_space (current-set undo q key (old_session r (trim_space key)) [] [] ne).0
    ∙ (settled q r key ∙ old-current r key)

-- Whether `Rotate` can write: to no file at all, or to one that takes the write.
abbrev pub is_writable : Surroundings → Handler → Bool
is_writable w h = is_empty h.router.path || w.rotate_saved

-- What a compaction leaves behind, with or without an error: the chat's session, the summaries,
-- and the sessions of all other chats.
abbrev pub Left : Surroundings → Text → Text → Handler → Handler × Result PostError Text → Type 0
Left w key output h (h', ok text) =
    (current h'.router key ≡ to_string (new w.env rotated (current h.router key)))
    × (h'.seeds
        ≡ (
          trim_space (current h'.router key) ++ codes ".json",
          codes "Previous conversation summary:\n" ++ trim_space output,
        )
          ∷ h.seeds)
Left w key output h (h', err e) =
    (h'.seeds ≡ h.seeds)
    × ((trim_space (current h'.router key) ≡ trim_space (current h.router key))
        ⊎ ((is_writable w h ≡ false)
            × (current h'.router key ≡ to_string (new w.env rotated (current h.router key)))))

abbrev pub OthersStay : Text → Handler → Handler → Type 0
OthersStay key h h' =
    (other fallback : Text)
    → trim_space other ≢ trim_space key
    → resolve h'.router other fallback ≡ resolve h.router other fallback

seed-written :
    (written : Bool) (workspace id text : Text) (seed : Text × Text)
    → seed_session_summary written workspace id text ≡ ok seed
    → seed ≡ (
      trim_space id ++ codes ".json",
      codes "Previous conversation summary:\n" ++ trim_space text,
    )
unfolding seed_session_summary
seed-written written workspace id text seed h = ground arith

after_rotate-ok :
    (w : Surroundings) (key : Text) (mode : CompactResponseMode) (text : Text) (h : Handler)
    (p : Router × Result RouterError (Text × Text)) (old id : Text)
    → p.1 ≡ ok (old, id)
    → after_rotate w key mode text h p
      ≡ after_seed w key mode text
          (set_router p.0 h)
          old
          (seed_session_summary w.seed_written h.workspace id text)
after_rotate-ok w key mode text h p old id e =
    subst
      (λ x.
        after_rotate w key mode text h (p.0, x)
        ≡ after_seed w key mode text (set_router p.0 h) old
            (seed_session_summary w.seed_written h.workspace id text))
      (sym e) refl

module _ (w : Surroundings) (key : Text) (mode : CompactResponseMode) (h : Handler)
    (ne : trim_space key ≢ []) where
  abbrev after : Router
  after = (rotate w.env w.rotate_saved h.router key).0

  seed-Left :
      (text : Text) (r : Result PostError (Text × Text))
      → seed_session_summary w.seed_written h.workspace (rotated_id w.env h.router key) text ≡ r
      → Left w key text h (
          after_seed w key mode text (set_router after h) (old_session h.router (trim_space key)) r)
  seed-Left text (err e) q = (refl, inl (undone w.env w.rotate_saved w.undo_saved h.router key ne))
  seed-Left text (ok seed) q =
      let moved = (rotate-Rotated w.env w.rotate_saved h.router key ne).moved in
      (
        moved,
        ap (λ (x : Text × Text). x ∷ h.seeds)
            (seed-written w.seed_written h.workspace (rotated_id w.env h.router key) text seed q
              ∙ ap
                  (λ (t : Text). (
                    trim_space t ++ codes ".json",
                    codes "Previous conversation summary:\n" ++ trim_space text,
                  ))
                  (ap to_string (new-trim w.env _ _ (old-current h.router key)) ∙ sym moved)),
      )

  -- An error of `Rotate` leaves the chat in the new session.
  unwritten-Left :
      (text : Text) (p : Router × Result RouterError (Text × Text))
      → is_writable w h ≡ false
      → current p.0 key ≡ to_string (new w.env rotated (current h.router key))
      → (e : RouterError) → p.1 ≡ err e
      → Left w key text h (after_rotate w key mode text h p)
  unwritten-Left text (r, err e) bad moved f q = (refl, inr (bad, moved))
  unwritten-Left text (r, ok x) bad moved f q = absurd (ground arith)

  -- The other chats stay whether or not a write fails.
  seed-OthersStay :
      (text old : Text) (r : Router) (seed : Result PostError (Text × Text))
      → OthersStay key h (set_router r h)
      → OthersStay key h (after_seed w key mode text (set_router r h) old seed).0
  seed-OthersStay text old r (ok seed) stay other fallback d = stay other fallback d
  seed-OthersStay text old r (err e) stay other fallback d =
      (current-set w.undo_saved r key old other fallback ne).1 d ∙ stay other fallback d

  rotated-OthersStay :
      (text : Text) (p : Router × Result RouterError (Text × Text))
      → OthersStay key h (set_router p.0 h)
      → OthersStay key h (after_rotate w key mode text h p).0
  rotated-OthersStay text (r, err e) stay = stay
  rotated-OthersStay text (r, ok (old, id)) stay =
      seed-OthersStay text old r (seed_session_summary w.seed_written h.workspace id text) stay

  pub compact-OthersStay : (output : Text) → OthersStay key h (compact w key mode output h).0
  unfolding compact
  compact-OthersStay output = elim (Bool-cases (is_empty (trim_space output))) [
    | inl e ↦ rw e (λ other fallback d. refl)
    | inr e ↦ rw e (
        rotated-OthersStay (trim_space output) (rotate w.env w.rotate_saved h.router key)
          (rotate-Rotated w.env w.rotate_saved h.router key ne).others)
  ]

  rotated-Left :
      (text : Text)
      → Left w key text h
          (after_rotate w key mode text h (rotate w.env w.rotate_saved h.router key))
  rotated-Left text = elim (Bool-cases (is_writable w h)) [
    | inl writable ↦
        rw
          (after_rotate-ok w key mode text h (rotate w.env w.rotate_saved h.router key)
            (old_session h.router (trim_space key)) (rotated_id w.env h.router key)
            (rotate-ok w.env w.rotate_saved h.router key ne writable))
          (seed-Left text _ refl)
    | inr bad ↦
        let failing = rotate-fails w.env w.rotate_saved h.router key ne bad in
        unwritten-Left text (rotate w.env w.rotate_saved h.router key) bad
          (rotate-Rotated w.env w.rotate_saved h.router key ne).moved failing.0 failing.1
  ]

  trimmed-Left :
      (output : Text) (r : Handler × Result PostError Text)
      → Left w key (trim_space output) h r
      → Left w key output h r
  trimmed-Left output (h', err e) l = l
  trimmed-Left output (h', ok text) (moved, seeds) = (
    moved,
    seeds
        ∙ ap
            (λ (t : Text).
              (
                trim_space (current h'.router key) ++ codes ".json",
                codes "Previous conversation summary:\n" ++ t,
              )
              ∷ h.seeds)
            (trim_space-IsTrimmed output),
  )

  -- For a chat whose key is not blank: a compaction without an error moves the chat to a new session
  -- made from its own and writes one summary, under the id of the new session, which holds the
  -- trimmed output. With an error no summary is written, and the chat resolves to its old session,
  -- up to spaces, unless it was `Rotate` that could not write its file: then the chat is in the new
  -- session. No other chat moves.
  pub compact-Left :
      (output : Text)
      → Left w key output h (compact w key mode output h)
        × OthersStay key h (compact w key mode output h).0
  unfolding compact
  compact-Left output = (
    elim (Bool-cases (is_empty (trim_space output))) [
      | inl e ↦ rw e (refl, inl refl)
      | inr e ↦ rw e (
          trimmed-Left output
            (after_rotate w key mode (trim_space output) h
              (rotate w.env w.rotate_saved h.router key))
            (rotated-Left (trim_space output)))
    ],
    compact-OthersStay output,
  )
