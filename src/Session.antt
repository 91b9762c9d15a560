-- ===== src/Session.antt =====
-- internal/kernel/session: router.go, resolver.go, mode.go and no_isolated_store.go. The mutex of a
-- router makes each operation one step. The JSON of the file stands for the table it encodes; the
-- JSON null, which leaves a nil map, is left out.
-- `saved` is whether the directory and the file can be written.
pub mod Routing
pub mod Restart
pub mod Isolation
pub mod Tests
use maven.Base.{Bool, true, false, Option, none, some, List, [], ◌∷◌, ◌||◌, if◌then◌else◌, is_empty}
use maven.Base.Assoc.{lookup, insert, erase}
use maven.Base.Result.{Result, ok, err}
use maven.Base.Text.{Text, codes, trim_space, text_eq}
use maven.Base.Unicode.{Unicode, to_lower}
use maven.Sessionid.{
  Env, Kind, SessionId, rotated, isolated, new, to_string, parse, from_route_key, chat_session_id,
}

abbrev pub Table : Type 0
Table = List (Text × Text)

-- What `os.ReadFile` and the decoder give for the file of a router.
pub data RouterFile : Type 0 where
  missing unreadable empty_file malformed : RouterFile
  table : Table → RouterFile

-- `Router`, with the file at its path.
pub record Router : Type 0 where
  pub path : Text
  pub sessions : Table
  pub file : RouterFile

pub data RouterError : Type 0 where
  not_read not_decoded empty_key not_written : RouterError

-- `New`.
unfoldable pub new_router : Text → RouterFile → Result RouterError Router
unfolding trim_space
new_router path file =
    let p = trim_space path in
    let r : Router = record { path = p; sessions = []; file = file } in
    if is_empty p then ok r else elim file [
      | missing ↦ ok r
      | unreadable ↦ err not_read
      | empty_file ↦ ok r
      | malformed ↦ err not_decoded
      | table t ↦ ok (record r { sessions = t })
    ]

-- `r.sessions[key]`, empty for a missing key.
unfoldable pub entry : Text → Table → Text
entry key m = elim (lookup key m) [ none ↦ [] | some id ↦ id ]

-- `Resolve`.
unfoldable pub resolve : Router → Text → Text → Text
unfolding entry lookup text_eq trim_space from_route_key
resolve r key fallback =
    let k = trim_space key in
    let f = trim_space fallback in
    let session_id = trim_space (entry k r.sessions) in
    if is_empty session_id then (if is_empty f then from_route_key k else f) else session_id

-- `Current`.
unfoldable pub current : Router → Text → Text
unfolding resolve from_route_key
current r key = resolve r key (from_route_key key)

-- `persistLocked`: the router after it, and whether it gives no error.
unfoldable pub persist : Bool → Router → Router × Bool
persist saved r =
    if is_empty r.path
    then (r, true)
    else if saved
    then (record r { file = table r.sessions }, true)
    else (r, false)

abbrev pub persisted : Router × Bool → Router × Option RouterError
persisted (r, true) = (r, none)
persisted (r, false) = (r, some not_written)

-- The id from which `Rotate` goes on.
unfoldable pub old_session : Router → Text → Text
unfolding entry lookup text_eq trim_space from_route_key
old_session r key =
    let id = trim_space (entry key r.sessions) in if is_empty id then from_route_key key else id

abbrev pub rotated_pair : Text → Text → Router × Bool → Router × Result RouterError (Text × Text)
rotated_pair old id (r, true) = (r, ok (old, id))
rotated_pair old id (r, false) = (r, err not_written)

-- `Rotate`.
unfoldable pub rotate : Env → Bool → Router → Text → Router × Result RouterError (Text × Text)
unfolding old_session new to_string persist insert trim_space text_eq
rotate env saved r key =
    let k = trim_space key in
    let old = old_session r k in
    let id = to_string (new env rotated old) in
    if is_empty k
    then (r, err empty_key)
    else rotated_pair old id (persist saved (record r { sessions = insert k id r.sessions }))

-- `Set`.
unfoldable pub set : Bool → Router → Text → Text → Router × Option RouterError
unfolding persist insert erase trim_space text_eq from_route_key
set saved r key session_id =
    let k = trim_space key in
    let id = trim_space session_id in
    if is_empty k
    then (r, none)
    else if is_empty id || text_eq id (from_route_key k)
    then persisted (persist saved (record r { sessions = erase k r.sessions }))
    else persisted (persist saved (record r { sessions = insert k id r.sessions }))

-- `Reset`.
unfoldable pub reset : Bool → Router → Text → Router × Option RouterError
unfolding persist erase trim_space text_eq
reset saved r key =
    let k = trim_space key in
    if is_empty k
    then (r, none)
    else persisted (persist saved (record r { sessions = erase k r.sessions }))

-- `SessionMode`.
pub data SessionMode : Type 0 where
  current_mode isolated_mode : SessionMode

-- `SessionMode.String`.
unfoldable pub mode_string : SessionMode → Text
mode_string current_mode = codes "current"
mode_string isolated_mode = codes "isolated"

-- `SessionMode.UnmarshalText`; none is the error.
unfoldable pub unmarshal_mode : Unicode → Text → Option SessionMode
unfolding to_lower trim_space text_eq
unmarshal_mode u text =
    let t = to_lower u (trim_space text) in
    if is_empty t || text_eq t (codes "current")
    then some current_mode
    else if text_eq t (codes "isolated")
    then some isolated_mode
    else none

-- `SessionResolver.ResolveSDKSessionID`.
unfoldable pub resolve_sdk_session_id :
    Env → Option Router → Text → Text → Text → SessionMode → Text
unfolding chat_session_id new to_string
resolve_sdk_session_id env router channel chat_id route_key mode =
    let base = chat_session_id channel chat_id in
    elim mode [
      | isolated_mode ↦ to_string (new env isolated base)
      | current_mode ↦ elim router [ none ↦ base | some r ↦ resolve r route_key base ]
    ]

-- The store that a `NoIsolatedStore` wraps: a state, with what `Load` and `Save` do to it.
pub record Store (S M E : Type 0) : Type 0 where
  pub load : Text → S → Result E (List M)
  pub save : Text → List M → S → S × Option E

module _ (is_uuid : Text → Bool) where
  -- `isIsolated`.
  unfoldable pub is_isolated : Text → Bool
  unfolding parse
  is_isolated id = elim (parse is_uuid id) [
    | err e ↦ false
    | ok sid ↦ elim sid.kind [ isolated ↦ true | _ ↦ false ]
  ]

  module _ {S M E : Type 0} (inner : Store S M E) where
    -- `NoIsolatedStore.Load`.
    unfoldable pub load : Text → S → Result E (List M)
    unfolding is_isolated
    load id s = if is_isolated id then ok [] else inner.load id s

    -- `NoIsolatedStore.Save`.
    unfoldable pub save : Text → List M → S → S × Option E
    unfolding is_isolated
    save id msgs s = if is_isolated id then (s, none) else inner.save id msgs s
