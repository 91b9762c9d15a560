-- ===== src/Slash/Tests.antt =====
-- Runs of the functions of internal/kernel/slash, and its theorems at inputs.
use maven.Base.{ℕ, map, true, false, none, some, [], ◌∷◌, ◌≡◌, ◌≢◌, refl, arith, All, length, keep}
use maven.Base.Assoc.{insert}
use maven.Base.Result.{ok, err}
use maven.Base.Text.{Text, codes, text_eq, split_on}
use maven.Base.Unicode.{ascii_only}
use maven.Slash.Listing.{flag, definitions}
use maven.Slash.Lexer.{lex, unclosed_quote}
use maven.Slash.Lexer.RoundTrip.{lex-print_words, print_words}
use maven.Slash.Parser.{Invocation, parse, no_command, valid_name}
use maven.Slash.Parser.Commands.{parse-Commands, IsCommand, slash_line}
use maven.Slash.Registry.{Definition, Registry, register}
use maven.Slash.Registry.Laws.{register-Registered, Registered}
use maven.Slash.Dispatch.{Handler, Reply, Outcome, Input, pre_turn}
use maven.Slash.Dispatch.Replies.{pre_turn-Direct, Direct}

lex_quotes :
    lex (codes "/say \"two words\" x\\ y")
    ≡ ok (codes "/say" ∷ codes "two words" ∷ codes "x y" ∷ [])
unfolding lex
lex_quotes = refl

lex_open : lex (codes "/say 'x") ≡ err unclosed_quote
unfolding lex
lex_open = refl

abbrev deploy : Invocation
deploy = record {
  name = codes "deploy";
  args = codes "app" ∷ [];
  flags = (codes "env", codes "prod") ∷ (codes "force", codes "yes") ∷ [];
  raw = codes "/deploy app --env=prod --force yes";
  position = 1;
}

parse_flags : parse ascii_only (codes "/deploy app --env=prod --force yes") ≡ ok (deploy ∷ [])
unfolding parse text_eq insert
parse_flags = refl

parse_plain : parse ascii_only (codes "hello") ≡ err no_command
unfolding parse text_eq insert
parse_plain = refl

lex-print_words_example :
    lex (print_words (codes "/a b" ∷ codes "c\"" ∷ [])) ≡ ok (codes "/a b" ∷ codes "c\"" ∷ [])
lex-print_words_example =
    lex-print_words (codes "/a b" ∷ codes "c\"" ∷ [])
      (λ e. absurd (ground arith), (λ e. absurd (ground arith), tt))

abbrev message : Text
message = codes "/deploy app --env=prod --force yes"

parse-Commands_example :
    (deploy ∷ [] ≢ [])
    × (All (IsCommand ascii_only 1 (split_on b'\n' [] message)) (deploy ∷ [])
        × (length (deploy ∷ [])
            ≡ length (keep (slash_line ascii_only) (split_on b'\n' [] message))))
parse-Commands_example = parse-Commands ascii_only message (deploy ∷ []) parse_flags

abbrev deployment : Definition
deployment = record { name = codes " Deploy"; description = codes "ships" }

abbrev shipped : Reply Text
shipped = record { command = []; output = codes " shipped "; metadata = []; post_action = none }

abbrev handler : Handler Text Text
handler ctx inv = ok shipped

abbrev registry : Registry (Handler Text Text)
registry =
    (codes "deploy", (record { name = codes "deploy"; description = codes "ships" }, handler)) ∷ []

registered : register ascii_only deployment (some handler) [] ≡ ok registry
unfolding register valid_name
registered = refl

register-Registered_example : Registered ascii_only deployment handler [] registry
register-Registered_example =
    register-Registered ascii_only deployment handler [] registry registered

abbrev input : Input
input = record { text = message; expected_slash_name = [] }

abbrev replied : Outcome Text
replied = record {
  continue_to_model = false;
  direct_reply = codes "shipped";
  request_metadata = [];
  trail = shipped ∷ [];
}

pre_turn_replies : pre_turn ascii_only text_eq (λ t. t) none (some registry) input ≡ ok replied
unfolding pre_turn text_eq
pre_turn_replies = refl

pre_turn-Direct_example :
    (false ≡ false → Direct ascii_only text_eq (λ t. t) none registry input replied)
    × (false ≡ true → replied.direct_reply ≡ [])
pre_turn-Direct_example =
    pre_turn-Direct ascii_only text_eq (λ t. t) none registry input replied pre_turn_replies

lists_by_name :
    map
      (λ d. d.name)
      (definitions {H = ℕ} (
        (codes "status", (record { name = codes "status"; description = [] }, 1))
        ∷ (codes "reload", (record { name = codes "reload"; description = [] }, 2))
        ∷ []))
    ≡ codes "reload" ∷ codes "status" ∷ []
unfolding definitions
lists_by_name = refl

reads_flag : flag ascii_only (codes "ENV") deploy ≡ some (codes "prod")
unfolding flag
reads_flag = refl
