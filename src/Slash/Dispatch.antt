-- ===== src/Slash/Dispatch.antt =====
-- internal/kernel/slash/dispatch.go and preturn.go: the phase before a turn of the model. The
-- handlers, `strings.EqualFold` and the values of metadata are parameters.
pub mod Compact
pub mod Replies
use maven.Base.{
  ℕ, Bool, true, false, not, ◌&&◌, Option, none, some, List, [], ◌∷◌, if◌then◌else◌, is_empty,
  is_some,
}
use maven.Base.Assoc.{lookup, insert}
use maven.Base.Result.{Result, ok, err}
use maven.Base.Text.{Text, codes, trim_space}
use maven.Base.Unicode.{Unicode}
use maven.Slash.Parser.{Invocation, ParseError, no_command, at_line, CommandError, parse}
use maven.Slash.Registry.{Registry, lookup_handler}
use maven.Turnctx.{Metadata, Context, from}

-- `CompactResponseMode` and `PostAction`.
pub data CompactResponseMode : Type 0 where
  summary ack : CompactResponseMode

pub data PostAction : Type 0 where
  compact_rotate : CompactResponseMode → PostAction

module _ (V : Type 0) where
  -- A handler's `Result`; the metadata is empty where it is nil.
  pub record Reply : Type 0 where
    pub command : Text
    pub output : Text
    pub metadata : Metadata V
    pub post_action : Option PostAction

  -- `Outcome`; the trail is the replies of its executions.
  pub record Outcome : Type 0 where
    pub continue_to_model : Bool
    pub direct_reply : Text
    pub request_metadata : Metadata V
    pub trail : List Reply

module _ {V : Type 0} (any : Text → V) where
  abbrev pub put_absent : Text → Text → Metadata V → Metadata V
  put_absent key value md = if is_some (lookup key md) then md else insert key (any value) md

  -- `enrichRequestMetadataWithTurnRouting`.
  unfoldable pub enrich : Context V → Metadata V → Metadata V
  unfolding from lookup insert
  enrich ctx md = elim (from ctx) [
    | none ↦ md
    | some tc ↦
        put_absent (codes "slash.turn.chat_id") tc.chat_id
          (put_absent (codes "slash.turn.channel") tc.channel md)
  ]

-- `Input`.
pub record Input : Type 0 where
  pub text : Text
  pub expected_slash_name : Text

-- The errors of `PreTurn`; `E` is what handlers give.
pub data PreTurnError (E : Type 0) : Type 0 where
  not_parsed : ℕ → CommandError → PreTurnError E
  several_commands : PreTurnError E
  handler_failed : E → PreTurnError E

abbrev pub to_model : {V : Type 0} → Outcome V
to_model = record { continue_to_model = true; direct_reply = []; request_metadata = []; trail = [] }

-- `Handler`.
abbrev pub Handler : Type 0 → Type 0 → Type 0
Handler V E = Context V → Invocation → Result E (Reply V)

-- Whether the routing asks for another command.
unfoldable pub other_expected : (Text → Text → Bool) → Text → Invocation → Bool
unfolding trim_space
other_expected equal_fold expected inv =
    let exp = trim_space expected in not (is_empty exp) && not (equal_fold exp inv.name)

module _ (u : Unicode) (equal_fold : Text → Text → Bool) {V E : Type 0} (any : Text → V) where
  -- `PreTurn` behind the call of the handler.
  unfoldable pub after_handler :
      Context V → Result E (Reply V) → Result (PreTurnError E) (Outcome V)
  unfolding enrich trim_space
  after_handler ctx (err e) = err (handler_failed e)
  after_handler ctx (ok res) =
      let direct = trim_space res.output in
      if is_empty direct
      then ok (record {
        continue_to_model = true;
        direct_reply = [];
        request_metadata = if is_empty res.metadata then [] else enrich any ctx res.metadata;
        trail = res ∷ [];
      })
      else ok (record {
        continue_to_model = false;
        direct_reply = direct;
        request_metadata = [];
        trail = res ∷ [];
      })

  unfoldable pub dispatch :
      Context V
      → Registry (Handler V E)
      → Text
      → List Invocation
      → Result (PreTurnError E) (Outcome V)
  unfolding other_expected
  dispatch ctx reg expected [] = ok to_model
  dispatch ctx reg expected (inv ∷ []) =
      if other_expected equal_fold expected inv
      then ok to_model
      else elim (lookup_handler u inv.name reg) [
        | none ↦ ok to_model
        | some handle ↦ after_handler ctx (handle ctx inv)
      ]
  dispatch ctx reg expected (inv ∷ next ∷ more) = err several_commands

  abbrev pub after_parse :
      Context V
      → Registry (Handler V E)
      → Text
      → Result ParseError (List Invocation)
      → Result (PreTurnError E) (Outcome V)
  after_parse ctx reg expected (err no_command) = ok to_model
  after_parse ctx reg expected (err (at_line n e)) = err (not_parsed n e)
  after_parse ctx reg expected (ok invs) = dispatch ctx reg expected invs

  -- `PreTurn`; no registry is a nil one.
  unfoldable pub pre_turn :
      Context V → Option (Registry (Handler V E)) → Input → Result (PreTurnError E) (Outcome V)
  unfolding dispatch after_handler lookup_handler parse trim_space
  pre_turn ctx none input = ok to_model
  pre_turn ctx (some reg) input =
      let text = trim_space input.text in
      if is_empty text
      then ok to_model
      else after_parse ctx reg input.expected_slash_name (parse u text)
