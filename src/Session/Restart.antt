-- ===== src/Session/Restart.antt =====
-- internal/kernel/session/router.go: what is on the file after a call, and a router opened on it.
use maven.Base.{true, [], ◌≡◌, ◌≢◌, ◌||◌, refl, is_empty, inl, inr, Bool-cases}
use maven.Base.Assoc.{insert, erase}
use maven.Base.Result.{ok}
use maven.Base.Text.{Text, trim_space, text_eq}
use maven.Base.Text.Trimming.{IsTrimmed}
use maven.Sessionid.{Env, from_route_key}
use maven.Session.Routing.{filled, rotated_id, rotated_pair_lem, persisted_lem}
use maven.Session.{Router, new_router, persist, rotate, set, reset, table, Table}

-- A call of the router that succeeds in writing the file.
pub data Call : Type 0 where
  rotation : Env → Text → Call
  setting : Text → Text → Call
  resetting : Text → Call

abbrev pub key_of : Call → Text
key_of (rotation env key) = key
key_of (setting key id) = key
key_of (resetting key) = key

abbrev pub called : Call → Router → Router
called (rotation env key) r = (rotate env true r key).0
called (setting key id) r = (set true r key id).0
called (resetting key) r = (reset true r key).0

abbrev written : Router → Table → Router
written r t = record { path = r.path; sessions = t; file = table t }

persist-written :
    (r : Router) (t : Table)
    → r.path ≢ []
    → (persist true (record r { sessions = t })).0 ≡ written r t
unfolding persist
persist-written r t ne = rw (filled r.path ne) refl

reopen :
    (r : Router) (t : Table)
    → r.path ≢ []
    → IsTrimmed r.path
    → new_router r.path (table t) ≡ ok (written r t)
unfolding new_router
reopen r t ne trimmed = rw (trimmed, filled r.path ne) refl

rotate-written :
    (env : Env) (r : Router) (key : Text)
    → trim_space key ≢ []
    → r.path ≢ []
    → (rotate env true r key).0
      ≡ written r (insert (trim_space key) (rotated_id env r key) r.sessions)
unfolding rotate
rotate-written env r key ne p =
    rw (filled (trim_space key) ne, rotated_pair_lem) (persist-written r _ p)

reset-written :
    (r : Router) (key : Text)
    → trim_space key ≢ []
    → r.path ≢ []
    → (reset true r key).0 ≡ written r (erase (trim_space key) r.sessions)
unfolding reset
reset-written r key ne p = rw (filled (trim_space key) ne, persisted_lem) (persist-written r _ p)

set-written :
    (r : Router) (key id : Text)
    → trim_space key ≢ []
    → r.path ≢ []
    → (t : Table) × ((set true r key id).0 ≡ written r t)
unfolding set
set-written r key id ne p =
    elim (Bool-cases
      (is_empty (trim_space id) || text_eq (trim_space id) (from_route_key (trim_space key)))) [
        | inl e ↦ (
          erase (trim_space key) r.sessions,
          rw (filled (trim_space key) ne, e, persisted_lem) (persist-written r _ p),
        )
        | inr e ↦ (
          insert (trim_space key) (trim_space id) r.sessions,
          rw (filled (trim_space key) ne, e, persisted_lem) (persist-written r _ p),
        )
      ]

called-written :
    (c : Call) (r : Router)
    → trim_space (key_of c) ≢ []
    → r.path ≢ []
    → (t : Table) × (called c r ≡ written r t)
called-written (rotation env key) r ne p =
    (insert (trim_space key) (rotated_id env r key) r.sessions, rotate-written env r key ne p)
called-written (setting key id) r ne p = set-written r key id ne p
called-written (resetting key) r ne p =
    (erase (trim_space key) r.sessions, reset-written r key ne p)

-- After any call with a key that is not blank and whose write of the file works, a router opened
-- on that file is the same router, so every route resolves as before the restart.
pub restart_resolves :
    (c : Call) (r : Router)
    → trim_space (key_of c) ≢ []
    → r.path ≢ []
    → IsTrimmed r.path
    → new_router (called c r).path (called c r).file ≡ ok (called c r)
restart_resolves c r ne filled_path trimmed =
    let (t, e) = called-written c r ne filled_path in rw e (reopen r t filled_path trimmed)
