-- ===== src/Sessionid.antt =====
-- internal/kernel/sessionid/sessionid.go. A uuid, the time and the SHA-256 prefix come from outside
-- the file: `Env` holds what one call of `New` gets, and `is_uuid` is whether `uuid.Parse` gives no
-- error.
pub mod Reading
pub mod RoundTrip
pub mod Rotation
pub mod Tests
use maven.Base.{
  ℕ, Bool, true, false, not, ◌&&◌, ◌||◌, Option, none, some, List, [], ◌∷◌, ◌++◌, ltb,
  if◌then◌else◌, is_some, is_empty,
}
use maven.Base.Decimal.{format_int, is_int64}
use maven.Base.Result.{Result, ok, err}
use maven.Base.Text.{
  Text, codes, byte_len, rune_len, is_space, trim_space, has_prefix, strip_prefix, cut,
}

-- `ChatSessionID`.
unfoldable pub chat_session_id : Text → Text → Text
unfolding trim_space has_prefix
chat_session_id channel peer =
    let channel' = trim_space channel in
    let peer' = trim_space peer in
    let prefix = channel' ++ codes "-" in
    if is_empty channel' then peer' else if has_prefix prefix peer' then peer' else prefix ++ peer'

-- `FromRouteKey`: the index of the colon is neither 0 nor the last one.
unfoldable pub from_trimmed_key : Text → Text
from_trimmed_key key = elim (cut (codes ":") key) [
  | none ↦ key
  | some (channel, peer) ↦
      if not (is_empty channel) && not (is_empty peer) then chat_session_id channel peer else key
]

unfoldable pub from_route_key : Text → Text
unfolding from_trimmed_key chat_session_id cut trim_space
from_route_key route_key = from_trimmed_key (trim_space route_key)

pub data Kind : Type 0 where
  chat cron heartbeat isolated rotated task : Kind

pub record SessionId : Type 0 where
  pub kind : Kind
  pub owner : Text
  pub token : Text

-- What `New` takes from its surroundings: `uuid.NewString()`, `time.Now().UnixNano()`, and the
-- first eight bytes of a SHA-256 sum in hexadecimal.
pub record Env : Type 0 where
  pub uuid : Text
  pub nanos : ℕ
  pub digest : Text → Text

unfoldable pub or_session : Text → Text
or_session seed = if is_empty seed then codes "session" else seed

-- The owner of a rotated id: a long one is replaced by a short hash.
unfoldable pub cap_owner : Env → Text → Text
unfolding byte_len
cap_owner env owner = if ltb 80 (byte_len owner) then b'r' ∷ env.digest owner else owner

abbrev pub id_of : Kind → Text → Text → SessionId
id_of kind owner token = record { kind = kind; owner = owner; token = token }

-- The cases of `New`, at the trimmed seed.
unfoldable pub new_trimmed : Env → Kind → Text → SessionId
unfolding or_session
new_trimmed env cron seed = id_of cron seed env.uuid
new_trimmed env heartbeat seed = id_of heartbeat [] env.uuid
new_trimmed env isolated seed = id_of isolated (or_session seed) (format_int env.nanos)
new_trimmed env rotated seed =
    id_of rotated (cap_owner env (or_session seed)) (format_int env.nanos)
new_trimmed env task seed = id_of task [] env.uuid
new_trimmed env chat seed = id_of chat seed []

-- `New`.
unfoldable pub new : Env → Kind → Text → SessionId
unfolding new_trimmed cap_owner format_int trim_space
new env kind seed = new_trimmed env kind (trim_space seed)

unfoldable pub format : Kind → Text → Text → Text
format cron owner token = codes "cron:" ++ (owner ++ (codes ":" ++ token))
format heartbeat owner token = codes "heartbeat:" ++ token
format task owner token = codes "task:" ++ token
format isolated owner token = owner ++ (codes ":isolated:" ++ token)
format rotated owner token = owner ++ (codes ":rotated:" ++ token)
format chat owner token = owner

-- `String`.
unfoldable pub to_string : SessionId → Text
unfolding format
to_string id = format id.kind id.owner id.token

pub data ParseError : Type 0 where
  empty_id : ParseError
  invalid : Kind → ParseError

abbrev pub Parsed : Type 0
Parsed = Result ParseError SessionId

pub checked : Bool → Kind → Text → Text → Parsed
checked valid kind owner token = if valid then ok (id_of kind owner token) else err (invalid kind)

module _ (is_uuid : Text → Bool) where
  -- What follows "cron:".
  pub parse_cron : Text → Parsed
  unfolding checked
  parse_cron rest = elim (cut (codes ":") rest) [
    | none ↦ err (invalid cron)
    | some (job_id, token) ↦ checked (not (is_empty job_id) && is_uuid token) cron job_id token
  ]

  -- The ids with the kind behind the owner.
  pub parse_suffixed : Text → Parsed
  unfolding checked
  parse_suffixed s = elim (cut (codes ":isolated:") s) [
    | some (base, suffix) ↦ checked (is_int64 suffix) isolated base suffix
    | none ↦ elim (cut (codes ":rotated:") s) [
      | some (base, suffix) ↦ checked (is_int64 suffix) rotated base suffix
      | none ↦ ok (id_of chat s [])
    ]
  ]

  pub parse_prefixed : Text → Parsed
  unfolding checked
  parse_prefixed s = elim (strip_prefix (codes "cron:") s) [
    | some rest ↦ parse_cron rest
    | none ↦ elim (strip_prefix (codes "heartbeat:") s) [
      | some token ↦ checked (is_uuid token) heartbeat [] token
      | none ↦ elim (strip_prefix (codes "task:") s) [
        | some token ↦ checked (is_uuid token) task [] token
        | none ↦ parse_suffixed s
      ]
    ]
  ]

  -- `Parse`.
  unfoldable pub parse : Text → Parsed
  unfolding parse_prefixed parse_cron parse_suffixed strip_prefix cut is_int64 trim_space
  parse text = let s = trim_space text in if is_empty s then err empty_id else parse_prefixed s

  -- `MatchesTask`.
  unfoldable pub matches_task : Text → Bool
  unfolding parse
  matches_task session_id = elim (parse session_id) [
    | err e ↦ false
    | ok id ↦ elim id.kind [ task ↦ true | _ ↦ false ]
  ]
