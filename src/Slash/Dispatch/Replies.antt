-- ===== src/Slash/Dispatch/Replies.antt =====
-- internal/kernel/slash/dispatch.go: when the model is skipped.
use maven.Base.{
  Bool, true, false, some, List, [], ◌∷◌, ◌≡◌, ◌≢◌, refl, subst, arith, inl, inr, Bool-cases,
  Option-cases, is_empty,
}
use maven.Base.Result.{Result, ok, err}
use maven.Base.Text.{Text, trim_space}
use maven.Base.Unicode.{Unicode}
use maven.Slash.Parser.{Invocation, ParseError, no_command, at_line, parse}
use maven.Slash.Registry.{Registry, lookup_handler}
use maven.Turnctx.{Context}
use maven.Slash.Dispatch.{
  Reply, Outcome, Input, PreTurnError, Handler, after_handler, other_expected, dispatch,
  after_parse, pre_turn, to_model,
}

module _ (u : Unicode) (equal_fold : Text → Text → Bool) {V E : Type 0} (any : Text → V)
    (ctx : Context V) (reg : Registry (Handler V E)) where
  -- A reply that comes from the one command of the message.
  pub record Direct (input : Input) (out : Outcome V) : Type 0 where
    pub inv : Invocation
    pub callback : Handler V E
    pub res : Reply V
    pub parsed : parse u (trim_space input.text) ≡ ok (inv ∷ [])
    pub expected : other_expected equal_fold input.expected_slash_name inv ≡ false
    pub found : lookup_handler u inv.name reg ≡ some callback
    pub handled : callback ctx inv ≡ ok res
    pub filled : trim_space res.output ≢ []
    pub replied : out.direct_reply ≡ trim_space res.output

  abbrev Sound : Input → Result (PreTurnError E) (Outcome V) → Type 0
  Sound input (err e) = Unit
  Sound input (ok out) =
      (out.continue_to_model ≡ false → Direct input out)
      × (out.continue_to_model ≡ true → out.direct_reply ≡ [])

  model-Sound : (input : Input) → Sound input (ok to_model)
  model-Sound input = (λ e. absurd (ground arith), λ e. refl)

  not_empty : (t : Text) → is_empty t ≡ false → t ≢ []
  not_empty [] h = absurd (ground arith)
  not_empty (c ∷ t) h = λ e. absurd (ground arith)

  handler-Sound :
      (input : Input) (inv : Invocation) (callback : Handler V E) (r : Result E (Reply V))
      → parse u (trim_space input.text) ≡ ok (inv ∷ [])
      → other_expected equal_fold input.expected_slash_name inv ≡ false
      → lookup_handler u inv.name reg ≡ some callback
      → callback ctx inv ≡ r
      → Sound input (after_handler u equal_fold any ctx r)
  unfolding after_handler
  handler-Sound input inv callback (err e) p x l h = tt
  handler-Sound input inv callback (ok res) p x l h =
      elim (Bool-cases (is_empty (trim_space res.output))) [
        | inl d ↦ rw d (λ e. absurd (ground arith), λ e. refl)
        | inr d ↦ rw d (
          λ _. record {
            inv = inv;
            callback = callback;
            res = res;
            parsed = p;
            expected = x;
            found = l;
            handled = h;
            filled = not_empty _ d;
            replied = refl;
          },
          λ e. absurd (ground arith),
        )
      ]

  dispatch-Sound :
      (input : Input) (invs : List Invocation)
      → parse u (trim_space input.text) ≡ ok invs
      → Sound input (dispatch u equal_fold any ctx reg input.expected_slash_name invs)
  unfolding dispatch
  dispatch-Sound input [] p = model-Sound input
  dispatch-Sound input (inv ∷ []) p =
      elim (Bool-cases (other_expected equal_fold input.expected_slash_name inv)) [
        | inl x ↦ rw (dispatch, x) (model-Sound input)
        | inr x ↦ elim (Option-cases (lookup_handler u inv.name reg)) [
          | inl l ↦ rw (dispatch, x, l) (model-Sound input)
          | inr (callback, l) ↦ rw (dispatch, x, l) (handler-Sound input inv callback _ p x l refl)
        ]
      ]
  dispatch-Sound input (inv ∷ next ∷ more) p = tt

  after_parse-Sound :
      (input : Input) (r : Result ParseError (List Invocation))
      → parse u (trim_space input.text) ≡ r
      → Sound input (after_parse u equal_fold any ctx reg input.expected_slash_name r)
  after_parse-Sound input (err no_command) p = model-Sound input
  after_parse-Sound input (err (at_line n e)) p = tt
  after_parse-Sound input (ok invs) p = dispatch-Sound input invs p

  pre_turn-Sound : (input : Input) → Sound input (pre_turn u equal_fold any ctx (some reg) input)
  unfolding pre_turn
  pre_turn-Sound input = elim (Bool-cases (is_empty (trim_space input.text))) [
    | inl e ↦ rw e (model-Sound input)
    | inr e ↦ rw e (after_parse-Sound input _ refl)
  ]

  -- If the phase before a turn gives no error, then the model is skipped only for a message that is
  -- one command, of the expected name if there is one, whose registered handler gave an output that
  -- is not blank, which is the reply; and a message that goes on to the model has no direct reply.
  pub pre_turn-Direct :
      (input : Input) (out : Outcome V)
      → pre_turn u equal_fold any ctx (some reg) input ≡ ok out
      → (out.continue_to_model ≡ false → Direct input out)
        × (out.continue_to_model ≡ true → out.direct_reply ≡ [])
  pre_turn-Direct input out h = subst (Sound input) h (pre_turn-Sound input)
