-- ===== src/Sessionid/Tests.antt =====
-- Runs of the functions of internal/kernel/sessionid/sessionid.go, and its theorems at inputs.
use maven.Base.{◌≤◌, ◌≡◌, refl, Bool, arith, All}
use maven.Base.Result.{ok, err}
use maven.Base.Text.{Text, codes, byte_len, text_eq, is_space, trim_space}
use maven.Sessionid.{
  cron, rotated, Env, new, to_string, parse, invalid, chat_session_id, from_route_key,
}
use maven.Sessionid.Reading.{IsEnv, IsPlain, IsHex}
use maven.Sessionid.RoundTrip.{parse-to_string}
use maven.Sessionid.Rotation.{to_string-rotated_le, parse-rotated_twice, ShortDigest}

abbrev accepts : Text → Bool
accepts t = text_eq t (codes "u1")

abbrev env : Env
env = record { uuid = codes "u1"; nanos = 1740; digest = λ t. codes "0123456789abcdef" }

chat_session_id_prefixes : chat_session_id (codes "telegram") (codes " 42 ") ≡ codes "telegram-42"
unfolding chat_session_id
chat_session_id_prefixes = refl

chat_session_id_keeps : chat_session_id (codes "web") (codes "web-7") ≡ codes "web-7"
unfolding chat_session_id
chat_session_id_keeps = refl

from_route_key_splits : from_route_key (codes "telegram:42") ≡ codes "telegram-42"
unfolding from_route_key
from_route_key_splits = refl

rotated_print : to_string (new env rotated (codes "telegram-42")) ≡ codes "telegram-42:rotated:1740"
unfolding to_string new
rotated_print = refl

isolated_prefix_of_cron : parse accepts (codes "cron:isolated:12") ≡ err (invalid cron)
unfolding parse text_eq
isolated_prefix_of_cron = refl

env-IsEnv : IsEnv accepts env
unfolding is_space text_eq
env-IsEnv = record {
  accepted = refl;
  printed = (refl, (refl, tt));
  present = λ e. absurd (ground arith);
  in_range = omega arith;
  hex = λ t. all_hex;
}
  where
    all_hex : All IsHex (codes "0123456789abcdef")
    all_hex = omega arith

telegram-IsPlain : IsPlain (trim_space (codes "telegram-42"))
unfolding trim_space
telegram-IsPlain = record {
  filled = λ e. absurd (ground arith);
  trimmed = refl;
  no_colon = omega arith;
  not_cron = λ e. absurd (ground arith);
  not_heartbeat = λ e. absurd (ground arith);
  not_task = λ e. absurd (ground arith);
}

parse-to_string_example :
    parse accepts (to_string (new env cron (codes "telegram-42")))
    ≡ ok (new env cron (codes "telegram-42"))
parse-to_string_example =
    parse-to_string accepts env env-IsEnv cron (codes "telegram-42") telegram-IsPlain

to_string-rotated_le_example : byte_len (to_string (new env rotated (codes "telegram-42"))) ≤ 108
to_string-rotated_le_example =
    to_string-rotated_le env (codes "telegram-42") digest_short (omega arith)
  where
    digest_short : ShortDigest env
    digest_short t = unfold byte_len in refl

parse-rotated_twice_example :
    parse accepts (to_string (new env rotated (to_string (new env rotated (codes "telegram-42")))))
    ≡ err (invalid rotated)
parse-rotated_twice_example =
    parse-rotated_twice accepts env env (codes "telegram-42") telegram-IsPlain
      (unfold trim_space byte_len in (omega arith)) (omega arith)
