-- ===== src/Webhook/Replies.antt =====
-- internal/kernel/channels/webhook/cache.go: an address is found until it expires.
use maven.Base.{
  ℕ, false, ◌||◌, Option, none, some, List, [], ◌∷◌, ◌+◌, ◌≤◌, ◌≡◌, ◌≢◌, refl, sym, ap, ◌∙◌, ltb→lt,
  arith, ltb, All, inl, inr, Bool-cases, Option-cases, is_empty,
}
use maven.Base.Assoc.{lookup, lookup-erase}
use maven.Base.Text.{Text, trim_space}
use maven.Base.Text.Laws.{text_eq_ne}
use maven.Webhook.Duplicates.{filled, gc-keeps, put-keeps, put-there}
use maven.Webhook.{Cache, set, get}

-- Calls of `Set` and `Get`, one after another.
pub data ReplyCall : Type 0 where
  setting : Text → Text → ℕ → ReplyCall
  getting : Text → ℕ → ReplyCall

abbrev pub reply_step : ReplyCall → Cache Text → Cache Text
reply_step (setting chat url now) c = set chat url now c
reply_step (getting chat now) c = (get chat now c).0

abbrev pub reply_steps : List ReplyCall → Cache Text → Cache Text
reply_steps [] c = c
reply_steps (call ∷ calls) c = reply_steps calls (reply_step call c)

-- A call that does not set the chat's address, and comes no later than `exp`.
abbrev pub Spares : Text → ℕ → ReplyCall → Type 0
Spares chat exp (setting other url now) = (trim_space other ≢ chat) × (now ≤ exp)
Spares chat exp (getting other now) = now ≤ exp

set-keeps :
    (k chat url url' : Text) (exp now : ℕ) (c : Cache Text)
    → lookup k c.items ≡ some (url, exp)
    → trim_space chat ≢ k
    → now ≤ exp
    → lookup k (set chat url' now c).items ≡ some (url, exp)
unfolding set
set-keeps k chat url url' exp now c h ne le =
    elim (Bool-cases (is_empty (trim_space chat) || is_empty (trim_space url'))) [
      | inl e ↦ rw e h
      | inr e ↦ rw e (put-keeps k (trim_space chat) url (trim_space url') exp now c h ne le)
    ]

late : (now exp : ℕ) → now ≤ exp → ltb exp now ≡ false
late now exp le = ground arith

abbrev until_of : Option (Text × ℕ) → ℕ
until_of none = 0
until_of (some (_, e)) = e

get-keeps :
    (k chat url : Text) (exp now : ℕ) (c : Cache Text)
    → lookup k c.items ≡ some (url, exp)
    → now ≤ exp
    → lookup k (get chat now c).0.items ≡ some (url, exp)
unfolding get
get-keeps k chat url exp now c h le = elim (Bool-cases (is_empty (trim_space chat))) [
  | inl e ↦ rw e h
  | inr e ↦ elim (Option-cases (lookup (trim_space chat) c.items)) [
    | inl l ↦ rw (e, l) h
    | inr ((url', until), l) ↦ elim (Bool-cases (ltb until now)) [
      | inr b ↦ rw (e, l, b) (gc-keeps k url exp now c h le)
      | inl b ↦
          rw
            (
              e,
              l,
              b,
              lookup-erase,
              text_eq_ne (trim_space chat) k (λ q. omega (
                arith,
                ap until_of (sym l ∙ (ap (λ i. lookup i c.items) q ∙ h)),
                ltb→lt until now b,
              )),
            )
            h
    ]
  ]
]

set-there :
    (chat url : Text) (now : ℕ) (c : Cache Text)
    → trim_space chat ≢ []
    → trim_space url ≢ []
    → lookup (trim_space chat) (set chat url now c).items ≡ some (trim_space url, now + c.ttl)
unfolding set
set-there chat url now c ne nu =
    rw (filled (trim_space chat) ne, filled (trim_space url) nu)
      (put-there (trim_space chat) (trim_space url) now c)

get-hit :
    (chat url : Text) (exp now : ℕ) (c : Cache Text)
    → trim_space chat ≢ []
    → lookup (trim_space chat) c.items ≡ some (url, exp)
    → now ≤ exp
    → (get chat now c).1 ≡ some url
unfolding get
get-hit chat url exp now c ne h le = rw (filled (trim_space chat) ne, h, late now exp le) refl

reply_steps-keeps :
    (k url : Text) (exp : ℕ) (calls : List ReplyCall) (c : Cache Text)
    → lookup k c.items ≡ some (url, exp)
    → All (Spares k exp) calls
    → lookup k (reply_steps calls c).items ≡ some (url, exp)
reply_steps-keeps k url exp [] c h s = h
reply_steps-keeps k url exp (setting chat u now ∷ calls) c h s =
    reply_steps-keeps k url exp calls _ (set-keeps k chat url u exp now c h s.0.0 s.0.1) s.1
reply_steps-keeps k url exp (getting chat now ∷ calls) c h s =
    reply_steps-keeps k url exp calls _ (get-keeps k chat url exp now c h s.0) s.1

-- After `Set` of a chat and an address that are not blank, `Get` of the chat gives the trimmed
-- address until its time to live is over, whatever calls of `Set` for other chats and of `Get` came
-- between, none of them after that end.
pub get-set :
    (chat url : Text) (now later : ℕ) (calls : List ReplyCall) (c : Cache Text)
    → trim_space chat ≢ []
    → trim_space url ≢ []
    → All (Spares (trim_space chat) (now + c.ttl)) calls
    → later ≤ now + c.ttl
    → (get chat later (reply_steps calls (set chat url now c))).1 ≡ some (trim_space url)
get-set chat url now later calls c ne nu between le =
    get-hit chat (trim_space url) (now + c.ttl) later _ ne
      (reply_steps-keeps (trim_space chat) (trim_space url) (now + c.ttl) calls _
        (set-there chat url now c ne nu) between)
      le
