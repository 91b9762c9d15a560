-- ===== src/Telegram/Tests.antt =====
-- Runs of internal/plugins/channel/telegram, and its theorem at one.
use maven.Base.{true, false, none, some, List, [], ◌∷◌, ◌==◌, ◌≡◌, refl, map, if◌then◌else◌}
use maven.Base.Text.{codes}
use maven.Telegram.Card.{render, add_tool, finish_tool, new_status_card}
use maven.Telegram.Stream.{Responder, StreamState, new_stream_state, done, refused}
use maven.Telegram.Stream.Events.{Round, ticked, arrived, content_block_delta, stream, final_text}
use maven.Telegram.Stream.Final.{telegram_retry_after, finalize_send, sent_final, waited}

card_shows :
    render (codes "3s") (
      finish_tool
        (codes "t1")
        false
        (add_tool (codes "t1") (codes "Bash") (codes "a<b") new_status_card))
    ≡ codes "🤖 <b>Working...</b>\n\n✅ <code>Bash</code>(a&lt;b)\n\n⏱ 3s"
unfolding render finish_tool add_tool
card_shows = refl

-- The service refuses the request of 1000 with a delay of two seconds.
abbrev service : Responder
service = record {
  answers = λ now r. if now == 1000 then refused (some 2000) else done 5;
  to_telegram_html = λ t. t;
  summarize_tool_input = λ name raw. raw;
  elapsed = λ now. [];
}

abbrev rounds : List Round
rounds =
    arrived 900 (content_block_delta false none (codes "Hi"))
    ∷ ticked 1000
    ∷ ticked 1250
    ∷ ticked 3100
    ∷ []

abbrev quiet : StreamState
quiet = new_stream_state false (codes "silent")

waits : map (λ m. m.time) (stream service rounds 3200 quiet).1 ≡ 1000 ∷ 3100 ∷ []
unfolding stream new_stream_state
waits = refl

says_all : final_text (stream service rounds 3200 quiet).0 ≡ codes "Hi"
unfolding stream final_text new_stream_state
says_all = refl

reads_delay :
    telegram_retry_after
      (record { too_many_requests = none; text = codes "429: retry after 17 seconds" })
    ≡ some 17000
unfolding telegram_retry_after
reads_delay = refl

-- The first send is refused for a second, and the second one works.
sends_again :
    finalize_send
      (record {
        first_time = 10;
        second_time = 20;
        first_cancelled = false;
        second_cancelled = false;
        first_error = some (record { too_many_requests = some 1; text = [] });
        second_error = none;
      })
      quiet
    ≡ (
      sent_final (codes "agent return null")
          ∷ waited 1020
          ∷ sent_final (codes "agent return null")
          ∷ [],
      true,
    )
unfolding finalize_send new_stream_state
sends_again = refl
