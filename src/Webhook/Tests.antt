-- ===== src/Webhook/Tests.antt =====
-- Runs of internal/kernel/channels/webhook/cache.go, and its theorems at inputs.
use maven.Base.{true, false, some, [], ◌∷◌, ◌≡◌, refl, arith}
use maven.Base.Text.{Text, codes, trim_space}
use maven.Webhook.{Cache, new_cache, seen, set, get, default_msg_cache_ttl}
use maven.Webhook.Duplicates.{seen_again, seen_all}
use maven.Webhook.Replies.{get-set, reply_steps, setting, getting}

abbrev messages : Cache Unit
messages = record { items = []; ttl = 100; last_gc = 0 }

abbrev replies : Cache Text
replies = record { items = []; ttl = 100; last_gc = 0 }

default_ttl : (new_cache {A = Unit} default_msg_cache_ttl 0).ttl ≡ default_msg_cache_ttl
unfolding new_cache
default_ttl = refl

expires : (seen (codes "m") 100 (seen (codes "m") 0 messages).0).1 ≡ false
unfolding seen
expires = refl

seen_again_example :
    (seen (codes "m") 1099 (seen_all ((codes "n", 1050) ∷ []) (seen (codes "m") 1000 messages).0)).1
    ≡ true
seen_again_example =
    seen_again (codes "m") 1000 1099 ((codes "n", 1050) ∷ []) messages (λ e. absurd (ground arith))
      first_new (omega arith, tt) (omega arith)
  where
    first_new : (seen (codes "m") 1000 messages).1 ≡ false
    first_new = unfold seen in refl

get-set_example :
    (get (codes " chat ") 1100 (
      reply_steps
        (setting (codes "other") (codes "v") 1010 ∷ getting (codes "other") 1020 ∷ [])
        (set (codes " chat ") (codes "url ") 1000 replies))).1
    ≡ some (codes "url")
unfolding trim_space
get-set_example =
    get-set (codes " chat ") (codes "url ") 1000 1100
      (setting (codes "other") (codes "v") 1010 ∷ getting (codes "other") 1020 ∷ []) replies
      (λ e. absurd (ground arith)) (λ e. absurd (ground arith))
      ((λ e. absurd (ground arith), omega arith), (omega arith, tt)) (omega arith)
