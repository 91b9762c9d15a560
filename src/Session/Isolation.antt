-- ===== src/Session/Isolation.antt =====
-- internal/kernel/session/resolver.go and no_isolated_store.go together: an isolated turn leaves no
-- trace in the store.
use maven.Base.{Bool, true, Option, none, List, [], ◌≡◌, refl}
use maven.Base.Result.{ok}
use maven.Base.Text.{Text, trim_space}
use maven.Sessionid.{Env, isolated, new, chat_session_id, new_trimmed}
use maven.Sessionid.Reading.{IsEnv, IsPlain}
use maven.Sessionid.RoundTrip.{parse-to_string}
use maven.Session.{Router, isolated_mode, resolve_sdk_session_id, Store, is_isolated, load, save}

module _ (is_uuid : Text → Bool) (env : Env) (known : IsEnv is_uuid env) where
  isolated_id :
      (router : Option Router) (channel chat_id route_key : Text)
      → IsPlain (trim_space (chat_session_id channel chat_id))
      → is_isolated is_uuid
          (resolve_sdk_session_id env router channel chat_id route_key isolated_mode)
        ≡ true
  unfolding is_isolated resolve_sdk_session_id
  isolated_id router channel chat_id route_key plain =
      rw
        (
          resolve_sdk_session_id,
          is_isolated,
          parse-to_string is_uuid env known isolated (chat_session_id channel chat_id) plain,
        )
        (unfold new new_trimmed in refl)

  -- For a chat whose session id is a plain owner, a turn in the isolated mode loads no history from
  -- any store, and saving it changes no store and gives no error.
  pub isolated_leaves_no_trace :
      {S M E : Type 0} (inner : Store S M E) (router : Option Router)
      (channel chat_id route_key : Text) (msgs : List M) (s : S)
      → IsPlain (trim_space (chat_session_id channel chat_id))
      → (load is_uuid inner
            (resolve_sdk_session_id env router channel chat_id route_key isolated_mode)
            s
          ≡ ok [])
        × (save is_uuid inner
              (resolve_sdk_session_id env router channel chat_id route_key isolated_mode)
              msgs
              s
            ≡ (s, none))
  unfolding load save
  isolated_leaves_no_trace inner router channel chat_id route_key msgs s plain =
      rw (isolated_id router channel chat_id route_key plain) (refl, refl)
