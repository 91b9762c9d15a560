-- ===== src/Session/Tests.antt =====
-- Runs of the router of internal/kernel/session, and its theorems at inputs.
use maven.Base.{ℕ, Bool, true, All, some, none, List, [], ◌∷◌, ◌≡◌, ◌≢◌, refl, arith}
use maven.Base.Text.{Text, codes, trim_space, text_eq, is_space}
use maven.Sessionid.{Env, chat_session_id, from_route_key}
use maven.Sessionid.Reading.{IsEnv, IsPlain, IsHex}
use maven.Base.Result.{ok}
use maven.Base.Unicode.{ascii_only}
use maven.Session.{
  Router, missing, resolve, current, rotate, set, unmarshal_mode, isolated_mode, new_router, Store,
  load, save, resolve_sdk_session_id,
}
use maven.Session.Restart.{restart_resolves, setting, called}
use maven.Session.Routing.{Rotated, rotate-Rotated, current-set}
use maven.Session.Isolation.{isolated_leaves_no_trace}

abbrev router : Router
router = record { path = codes "/s.json"; sessions = []; file = missing }

abbrev env : Env
env = record { uuid = codes "u1"; nanos = 1740; digest = λ t. codes "0123456789abcdef" }

abbrev accepts : Text → Bool
accepts t = text_eq t (codes "u1")

abbrev key : Text
key = codes "telegram:42"

starts_at_default : current router key ≡ codes "telegram-42"
unfolding current
starts_at_default = refl

rotates_in_chain :
    current (rotate env true (rotate env true router key).0 key).0 key
    ≡ codes "telegram-42:rotated:1740:rotated:1740"
unfolding current rotate
rotates_in_chain = refl

mode_reads : unmarshal_mode ascii_only (codes " Isolated ") ≡ some isolated_mode
unfolding unmarshal_mode
mode_reads = refl

key_filled : trim_space key ≢ []
unfolding trim_space
key_filled = λ e. absurd (ground arith)

path_filled : router.path ≢ []
path_filled = λ e. absurd (ground arith)

rotate-Rotated_example : Rotated env true router key
rotate-Rotated_example = rotate-Rotated env true router key key_filled

current-set_example :
    (current (set true router key (codes "web-7")).0 key ≡ codes "web-7")
    × (codes "web:1" ≢ codes "telegram:42"
        → resolve (set true router key (codes "web-7")).0 (codes "web:1") [] ≡ codes "web-1")
unfolding trim_space text_eq from_route_key resolve
current-set_example = current-set true router key (codes "web-7") (codes "web:1") [] key_filled

restart_resolves_example :
    new_router
      (called (setting key (codes "web-7")) router).path
      (called (setting key (codes "web-7")) router).file
    ≡ ok (called (setting key (codes "web-7")) router)
restart_resolves_example =
    restart_resolves (setting key (codes "web-7")) router key_filled path_filled
      (unfold trim_space in refl)

telegram-IsPlain : IsPlain (trim_space (chat_session_id (codes "telegram") (codes "42")))
unfolding trim_space chat_session_id
telegram-IsPlain = record {
  filled = λ e. absurd (ground arith);
  trimmed = refl;
  no_colon = omega arith;
  not_cron = λ e. absurd (ground arith);
  not_heartbeat = λ e. absurd (ground arith);
  not_task = λ e. absurd (ground arith);
}

env-IsEnv : IsEnv accepts env
unfolding is_space text_eq
env-IsEnv = record {
  accepted = refl;
  printed = (refl, (refl, tt));
  present = λ e. absurd (ground arith);
  in_range = omega arith;
  hex = λ t. all_hex;
}
  where
    all_hex : All IsHex (codes "0123456789abcdef")
    all_hex = omega arith

-- A store that keeps one list of numbers and always works.
abbrev inner : Store (List ℕ) ℕ Text
inner = record { load = λ id s. ok s; save = λ id msgs s. (msgs, none) }

isolated_leaves_no_trace_example :
    (load accepts inner
        (resolve_sdk_session_id env (some router) (codes "telegram") (codes "42") key isolated_mode)
        (5 ∷ [])
      ≡ ok [])
    × (save accepts inner
          (resolve_sdk_session_id env
            (some router)
            (codes "telegram")
            (codes "42")
            key
            isolated_mode)
          (7 ∷ [])
          (5 ∷ [])
        ≡ (5 ∷ [], none))
isolated_leaves_no_trace_example =
    isolated_leaves_no_trace accepts env env-IsEnv inner (some router) (codes "telegram")
      (codes "42") key (7 ∷ []) (5 ∷ []) telegram-IsPlain
