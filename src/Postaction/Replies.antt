-- ===== src/Postaction/Replies.antt =====
-- internal/kernel/agent/postaction/postaction.go: a reply to a command is never empty.
use maven.Base.{
  false, Option, none, some, List, ◌≡◌, refl, inl, inr, Bool-cases, Option-cases, is_empty,
}
use maven.Base.Result.{Result, ok, err}
use maven.Base.Text.{Text, trim_space}
use maven.Session.{Router, RouterError, rotate}
use maven.Slash.Dispatch.{Reply, compact_rotate, CompactResponseMode, ack, summary}
use maven.Postaction.{
  Handler, PostError, Surroundings, compact, after_rotate, after_seed, seed_session_summary,
  extract_post_action, handle_post_response, response_of, set_router,
}

abbrev pub Filled : Result PostError Text → Type 0
Filled (err e) = Unit
Filled (ok t) = is_empty t ≡ false

abbrev pub AllFilled : Option (Result PostError Text) → Type 0
AllFilled none = Unit
AllFilled (some r) = Filled r

response_of-Filled :
    (mode : CompactResponseMode) (text : Text)
    → is_empty text ≡ false
    → Filled (ok (response_of mode text))
response_of-Filled ack text e = refl
response_of-Filled summary text e = e

module _ (w : Surroundings) (key : Text) (mode : CompactResponseMode) (h : Handler) where
  after_seed-Filled :
      (text old : Text) (g : Handler) (r : Result PostError (Text × Text))
      → is_empty text ≡ false
      → Filled (after_seed w key mode text g old r).1
  after_seed-Filled text old g (err e) f = tt
  after_seed-Filled text old g (ok seed) f = response_of-Filled mode text f

  after_rotate-Filled :
      (text : Text) (p : Router × Result RouterError (Text × Text))
      → is_empty text ≡ false
      → Filled (after_rotate w key mode text h p).1
  after_rotate-Filled text (r, err e) f = tt
  after_rotate-Filled text (r, ok (old, id)) f =
      after_seed-Filled text old (set_router r h)
        (seed_session_summary w.seed_written h.workspace id text) f

  compact-Filled : (output : Text) → Filled (compact w key mode output h).1
  unfolding compact
  compact-Filled output = elim (Bool-cases (is_empty (trim_space output))) [
    | inl e ↦ rw e tt
    | inr e ↦
        rw e (after_rotate-Filled (trim_space output) (rotate w.env w.rotate_saved h.router key) e)
  ]

module _ {V : Type 0} (w : Surroundings) (key output : Text) (h : Handler) where
  pub handle_post_response-AllFilled :
      (trail : List (Reply V)) → AllFilled (handle_post_response w key output trail h).1
  unfolding handle_post_response
  handle_post_response-AllFilled trail = elim (Option-cases (extract_post_action trail)) [
    | inl e ↦ rw (AllFilled, e) tt
    | inr (compact_rotate mode, e) ↦ rw (AllFilled, e) (compact-Filled w key mode h output)
  ]
