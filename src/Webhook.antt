-- ===== src/Webhook.antt =====
-- internal/kernel/channels/webhook/cache.go: the cache of message ids and that of reply addresses.
-- Times are nanoseconds, and 0 is the zero time; each operation holds the mutex, so it is a step at
-- the time that it reads.
pub mod Duplicates
pub mod Replies
pub mod Tests
use maven.Base.{
  ℕ, Bool, true, false, not, ◌||◌, Option, none, some, List, [], ◌∷◌, ◌+◌, ◌-◌, ◌==◌, ltb, leb,
  if◌then◌else◌, is_empty, keep,
}
use maven.Base.Assoc.{lookup, insert, erase}
use maven.Base.Text.{Text, trim_space, text_eq}

-- `DefaultMsgCacheTTL`, `DefaultReplyCacheTTL` and `DefaultCacheScanInterval`.
abbrev pub default_msg_cache_ttl : ℕ
default_msg_cache_ttl = 300000000000

abbrev pub default_reply_cache_ttl : ℕ
default_reply_cache_ttl = 3600000000000

abbrev pub default_cache_scan_interval : ℕ
default_cache_scan_interval = 60000000000

module _ (A : Type 0) where
  -- `MsgIDCache` and `ReplyURLCache`, which differ in what they keep with an expiry.
  pub record Cache : Type 0 where
    pub items : List (Text × (A × ℕ))
    pub ttl : ℕ
    pub last_gc : ℕ

module _ {A : Type 0} where
  -- `NewMsgIDCache` and `NewReplyURLCache`; a negative time to live stands at 0.
  unfoldable pub new_cache : ℕ → ℕ → Cache A
  new_cache default ttl = record {
    items = [];
    ttl = if ttl == 0 then default else ttl;
    last_gc = 0;
  }

  abbrev pub live : ℕ → Text × (A × ℕ) → Bool
  live now e = not (ltb e.1.1 now)

  -- `gcLocked`.
  unfoldable pub gc : ℕ → Cache A → Cache A
  gc now c =
      if c.last_gc == 0 || leb default_cache_scan_interval (now - c.last_gc)
      then record c { items = keep (live now) c.items; last_gc = now }
      else c

  -- The assignment of a new entry, and the collection behind it.
  unfoldable pub put : Text → A → ℕ → Cache A → Cache A
  unfolding gc insert text_eq
  put key a now c = gc now (record c { items = insert key (a, now + c.ttl) c.items })

-- `MsgIDCache.Seen`, at the time `now`.
unfoldable pub seen : Text → ℕ → Cache Unit → Cache Unit × Bool
unfolding put gc lookup insert erase text_eq
seen key now c = if is_empty key then (c, false) else elim (lookup key c.items) [
  | none ↦ (put key tt now c, false)
  | some (_, exp) ↦
      if ltb now exp
      then (c, true)
      else (put key tt now (record c { items = erase key c.items }), false)
]

-- `ReplyURLCache.Set`.
unfoldable pub set : Text → Text → ℕ → Cache Text → Cache Text
unfolding put gc insert text_eq
set chat_id reply_url now c =
    let chat = trim_space chat_id in
    let url = trim_space reply_url in
    if is_empty chat || is_empty url then c else put chat url now c

-- `ReplyURLCache.Get`.
unfoldable pub get : Text → ℕ → Cache Text → Cache Text × Option Text
unfolding gc lookup erase text_eq
get chat_id now c =
    let chat = trim_space chat_id in
    if is_empty chat then (c, none) else elim (lookup chat c.items) [
      | none ↦ (c, none)
      | some (url, exp) ↦
          if ltb exp now
          then (record c { items = erase chat c.items }, none)
          else (gc now c, some url)
    ]
