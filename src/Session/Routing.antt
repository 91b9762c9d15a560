-- ===== src/Session/Routing.antt =====
-- internal/kernel/session/router.go: what a route resolves to after each operation.
use maven.Base.{
  Bool, true, false, [], ◌∷◌, ◌≡◌, ◌≢◌, ◌||◌, refl, if◌then◌else◌, is_empty, arith, ltb, subst, All,
  inl, inr, Bool-cases, sym, ap,
}
use maven.Base.Assoc.{lookup, insert, erase, lookup-insert, lookup-erase}
use maven.Base.Decimal.{format_int-digits, IsDigit}
use maven.Base.Result.{is_ok}
use maven.Base.Text.{Text, codes, trim_space, text_eq, is_space, byte_len}
use maven.Base.Text.Laws.{text_eq_refl, text_eq_ne}
use maven.Base.Text.Trimming.{
  IsTrimmed, trim_space-IsTrimmed, IsTrimmed-head, head_ok, append-ne-nil,
}
use maven.Sessionid.{
  Env, from_trimmed_key, rotated, new, to_string, from_route_key, cap_owner, or_session,
  new_trimmed, format,
}
use maven.Sessionid.Reading.{digits-NoSpace, IsTrimmed-between}
use maven.Sessionid.RoundTrip.{format_int-cons, new_lem}
use maven.Session.{
  Router, entry, resolve, current, persist, persisted, old_session, rotate, set, reset,
  rotated_pair, Table,
}

-- What a router with these sessions and no entry for the key gives.
abbrev pub cleared : Router → Router
cleared r = record r { sessions = [] }

entry-insert :
    (k j v : Text) (m : Table) → entry j (insert k v m) ≡ (if text_eq k j then v else entry j m)
unfolding entry
entry-insert k j v m = elim (Bool-cases (text_eq k j)) [
  | inl e ↦ rw (entry, lookup-insert k j v m, e) refl
  | inr e ↦ rw (entry, lookup-insert k j v m, e) refl
]

entry-erase :
    (k j : Text) (m : Table) → entry j (erase k m) ≡ (if text_eq k j then [] else entry j m)
unfolding entry
entry-erase k j m = elim (Bool-cases (text_eq k j)) [
  | inl e ↦ rw (entry, lookup-erase k j m, e) refl
  | inr e ↦ rw (entry, lookup-erase k j m, e) refl
]

entry-nil : (k : Text) → entry k [] ≡ []
unfolding entry lookup
entry-nil k = refl

resolve_cong :
    (r q : Router) (key fallback : Text)
    → entry (trim_space key) r.sessions ≡ entry (trim_space key) q.sessions
    → resolve r key fallback ≡ resolve q key fallback
unfolding resolve
resolve_cong r q key fallback e = rw e refl

resolve-entry :
    (r : Router) (key fallback id : Text)
    → entry (trim_space key) r.sessions ≡ id
    → IsTrimmed id
    → id ≢ []
    → resolve r key fallback ≡ id
unfolding resolve
resolve-entry r key fallback [] e t ne = absurd (ne refl)
resolve-entry r key fallback (c ∷ id) e t ne = rw (e, t) refl

persist-sessions : (saved : Bool) (r : Router) → (persist saved r).0.sessions ≡ r.sessions
unfolding persist
persist-sessions saved r = elim (Bool-cases (is_empty r.path)) [
  | inl e ↦ rw e refl
  | inr e ↦ elim (Bool-cases saved) [ inl s ↦ rw (e, s) refl | inr s ↦ rw (e, s) refl ]
]

pub persisted_lem : (p : Router × Bool) → (persisted p).0 ≡ p.0
persisted_lem (r, true) = refl
persisted_lem (r, false) = refl

pub rotated_pair_lem : (a b : Text) (p : Router × Bool) → (rotated_pair a b p).0 ≡ p.0
rotated_pair_lem a b (r, true) = refl
rotated_pair_lem a b (r, false) = refl

pub filled : (t : Text) → t ≢ [] → is_empty t ≡ false
filled [] ne = absurd (ne refl)
filled (c ∷ t) ne = refl

from_route_key-trim : (key : Text) → from_route_key (trim_space key) ≡ from_route_key key
unfolding from_route_key
from_route_key-trim key = ap from_trimmed_key (trim_space-IsTrimmed key)

pub current_lem : (r : Router) (key : Text) → current r key ≡ resolve r key (from_route_key key)
unfolding current
current_lem r key = refl

-- The session to which a rotated id is bound.
abbrev pub rotated_id : Env → Router → Text → Text
rotated_id env r key = to_string (new env rotated (old_session r (trim_space key)))

rotate-sessions :
    (env : Env) (saved : Bool) (r : Router) (key : Text)
    → trim_space key ≢ []
    → (rotate env saved r key).0.sessions
      ≡ insert (trim_space key) (rotated_id env r key) r.sessions
unfolding rotate
rotate-sessions env saved r key ne =
    rw (filled (trim_space key) ne, rotated_pair_lem) (persist-sessions saved _)

reset-sessions :
    (saved : Bool) (r : Router) (key : Text)
    → trim_space key ≢ []
    → (reset saved r key).0.sessions ≡ erase (trim_space key) r.sessions
unfolding reset
reset-sessions saved r key ne =
    rw (filled (trim_space key) ne, persisted_lem) (persist-sessions saved _)

set-sessions :
    (saved : Bool) (r : Router) (key id : Text)
    → trim_space key ≢ []
    → (set saved r key id).0.sessions ≡ (
        if is_empty (trim_space id) || text_eq (trim_space id) (from_route_key (trim_space key))
        then erase (trim_space key) r.sessions
        else insert (trim_space key) (trim_space id) r.sessions)
unfolding set
set-sessions saved r key id ne =
    elim (Bool-cases
      (is_empty (trim_space id) || text_eq (trim_space id) (from_route_key (trim_space key)))) [
        | inl e ↦ rw (filled (trim_space key) ne, e, persisted_lem) (persist-sessions saved _)
        | inr e ↦ rw (filled (trim_space key) ne, e, persisted_lem) (persist-sessions saved _)
      ]

-- The owner of a rotated id starts with no space.
owner_head :
    (env : Env) (t : Text)
    → head_ok t ≡ true
    → (head_ok (cap_owner env (or_session t)) ≡ true) × (cap_owner env (or_session t) ≢ [])
unfolding cap_owner or_session is_space
owner_head env [] h = ground arith
owner_head env (c ∷ t) h = elim (Bool-cases (ltb 80 (byte_len (c ∷ t)))) [
  | inl e ↦ rw e (refl, λ q. absurd (ground arith))
  | inr e ↦ rw e (h, λ q. absurd (ground arith))
]

pub rotated-IsTrimmed :
    (env : Env) (seed : Text)
    → IsTrimmed (to_string (new env rotated seed)) × (to_string (new env rotated seed) ≢ [])
unfolding to_string new new_trimmed format
rotated-IsTrimmed env seed =
    let (c, s, e) = format_int-cons env.nanos in
    let h = owner_head env (trim_space seed) (IsTrimmed-head _ (trim_space-IsTrimmed seed)) in
    rw e (
      IsTrimmed-between _ (codes ":rotated:") c s h.0 h.1
          (digits-NoSpace (c ∷ s) (subst (All IsDigit) e (format_int-digits env.nanos))),
      append-ne-nil _ _ h.1,
    )

-- The default id and the old id of a rotation name the same session.
pub old-current :
    (r : Router) (key : Text)
    → trim_space (old_session r (trim_space key)) ≡ trim_space (current r key)
unfolding old_session trim_space resolve
old-current r key = elim (Bool-cases (is_empty (trim_space (entry (trim_space key) r.sessions)))) [
  | inl e ↦ elim (Bool-cases (is_empty (trim_space (from_route_key key)))) [
    | inl f ↦ rw (current_lem, old_session, resolve, e, f) refl
    | inr f ↦
        rw (current_lem, old_session, resolve, e, f, from_route_key-trim, trim_space-IsTrimmed) refl
  ]
  | inr e ↦ rw (current_lem, old_session, resolve, e) refl
]

pub new-trim :
    (env : Env) (s t : Text) → trim_space s ≡ trim_space t → new env rotated s ≡ new env rotated t
new-trim env s t e = rw (new_lem, e) (sym (new_lem env rotated t))

pub rotate-reported :
    (env : Env) (saved : Bool) (r : Router) (key : Text)
    → trim_space key ≢ []
    → is_ok (rotate env saved r key).1 ≡ (is_empty r.path || saved)
unfolding rotate persist
rotate-reported env saved r key ne = elim (Bool-cases (is_empty r.path)) [
  | inl e ↦ rw (filled (trim_space key) ne, e) refl
  | inr e ↦ elim (Bool-cases saved) [
    | inl f ↦ rw (filled (trim_space key) ne, e, f) refl
    | inr f ↦ rw (filled (trim_space key) ne, e, f) refl
  ]
]

-- What `Rotate` does to what routes resolve to.
pub record Rotated (env : Env) (saved : Bool) (r : Router) (key : Text) : Type 0 where
  pub moved : current (rotate env saved r key).0 key ≡ to_string (new env rotated (current r key))
  pub others :
      (other fallback : Text)
      → trim_space other ≢ trim_space key
      → resolve (rotate env saved r key).0 other fallback ≡ resolve r other fallback
  pub reported : is_ok (rotate env saved r key).1 ≡ (is_empty r.path || saved)

-- `Rotate` of a key that is not blank moves the route to a new id made from the one that it
-- resolved to, leaves every other route alone, and gives no error exactly if there is no file or it
-- was written.
pub rotate-Rotated :
    (env : Env) (saved : Bool) (r : Router) (key : Text)
    → trim_space key ≢ []
    → Rotated env saved r key
rotate-Rotated env saved r key ne =
    let same : rotated_id env r key ≡ to_string (new env rotated (current r key)) =
      ap to_string (new-trim env _ _ (old-current r key)) in
    let fresh = rotated-IsTrimmed env (current r key) in
    record {
      moved = rw current_lem (
          resolve-entry _ key _ _
            (rw (rotate-sessions env saved r key ne, entry-insert, text_eq_refl, same) refl) fresh.0
            fresh.1);
      others = λ other fallback d. resolve_cong _ r other fallback (
          rw (rotate-sessions env saved r key ne, entry-insert, text_eq_ne _ _ (λ q. d (sym q)))
            refl);
      reported = rotate-reported env saved r key ne;
    }

filled_of_or : (t : Text) (b : Bool) → (is_empty t || b) ≡ false → t ≢ []
filled_of_or [] b e = absurd (ground arith)
filled_of_or (c ∷ t) b e = λ q. absurd (ground arith)

-- `Set` of a key that is not blank: the route resolves to the trimmed id from then on, or, if that
-- is blank or the key's default, to what it does without an entry; every other route is left alone.
pub current-set :
    (saved : Bool) (r : Router) (key id other fallback : Text)
    → trim_space key ≢ []
    → (current (set saved r key id).0 key ≡ (
        if is_empty (trim_space id) || text_eq (trim_space id) (from_route_key (trim_space key))
        then current (cleared r) key
        else trim_space id))
      × (trim_space other ≢ trim_space key
          → resolve (set saved r key id).0 other fallback ≡ resolve r other fallback)
current-set saved r key id other fallback ne =
    elim (Bool-cases
      (is_empty (trim_space id) || text_eq (trim_space id) (from_route_key (trim_space key)))) [
        | inl e ↦ rw e (
          rw (current_lem, current_lem)
              (resolve_cong _ (cleared r) key (from_route_key key) (
                rw (set-sessions saved r key id ne, e, entry-erase, text_eq_refl, entry-nil) refl)),
          λ d. resolve_cong _ r other fallback (
              rw (set-sessions saved r key id ne, e, entry-erase, text_eq_ne _ _ (λ q. d (sym q)))
                refl),
        )
        | inr e ↦ rw e (
          rw current_lem (
              resolve-entry _ key _ _
                (rw (set-sessions saved r key id ne, e, entry-insert, text_eq_refl) refl)
                (trim_space-IsTrimmed id) (filled_of_or _ _ e)),
          λ d. resolve_cong _ r other fallback (
              rw (set-sessions saved r key id ne, e, entry-insert, text_eq_ne _ _ (λ q. d (sym q)))
                refl),
        )
      ]
