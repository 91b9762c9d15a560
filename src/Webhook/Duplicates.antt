-- ===== src/Webhook/Duplicates.antt =====
-- internal/kernel/channels/webhook/cache.go: what the caches keep until it expires.
use maven.Base.{
  ℕ, Bool, true, false, ◌||◌, some, List, [], ◌∷◌, ◌+◌, ◌-◌, ◌==◌, ◌≤◌, ◌<◌, ◌≡◌, ◌≢◌, refl, sym,
  subst, lt→ltb, ltb→lt, arith, ltb, leb, All, inl, inr, Bool-cases, Option-cases, is_empty, keep,
}
use maven.Base.Assoc.{lookup, insert, erase, lookup-insert, lookup-erase}
use maven.Base.Text.{Text, text_eq}
use maven.Base.Text.Laws.{text_eq_iff, text_eq_refl, text_eq_ne}
use maven.Webhook.{Cache, live, gc, put, seen, default_cache_scan_interval}

pub filled : (t : Text) → t ≢ [] → is_empty t ≡ false
filled [] ne = absurd (ne refl)
filled (c ∷ t) ne = refl

module _ {A : Type 0} where
  keep-live :
      (k : Text) (a : A) (exp now : ℕ) (m : List (Text × (A × ℕ)))
      → lookup k m ≡ some (a, exp)
      → now ≤ exp
      → lookup k (keep (live now) m) ≡ some (a, exp)
  unfolding lookup
  keep-live k a exp now [] h le = h
  keep-live k a exp now ((j, (b, e)) ∷ m) h le = ground (arith, keep-live k a exp now m)

  pub gc-keeps :
      (k : Text) (a : A) (exp now : ℕ) (c : Cache A)
      → lookup k c.items ≡ some (a, exp)
      → now ≤ exp
      → lookup k (gc now c).items ≡ some (a, exp)
  unfolding gc
  gc-keeps k a exp now c h le =
      elim (Bool-cases (c.last_gc == 0 || leb default_cache_scan_interval (now - c.last_gc))) [
        | inl e ↦ rw e (keep-live k a exp now c.items h le)
        | inr e ↦ rw e h
      ]

  pub put-keeps :
      (k j : Text) (a b : A) (exp now : ℕ) (c : Cache A)
      → lookup k c.items ≡ some (a, exp)
      → j ≢ k
      → now ≤ exp
      → lookup k (put j b now c).items ≡ some (a, exp)
  unfolding put
  put-keeps k j a b exp now c h ne le =
      gc-keeps k a exp now (record c { items = insert j (b, now + c.ttl) c.items })
        (rw (lookup-insert, text_eq_ne j k ne) h) le

  pub put-there :
      (k : Text) (a : A) (now : ℕ) (c : Cache A)
      → lookup k (put k a now c).items ≡ some (a, now + c.ttl)
  unfolding put
  put-there k a now c =
      gc-keeps k a (now + c.ttl) now (record c { items = insert k (a, now + c.ttl) c.items })
        (rw (lookup-insert, text_eq_refl k) refl) (omega arith)

-- Calls of `Seen`, one after another.
abbrev pub seen_all : List (Text × ℕ) → Cache Unit → Cache Unit
seen_all [] c = c
seen_all ((key, now) ∷ calls) c = seen_all calls (seen key now c).0

seen-hit :
    (k : Text) (exp now : ℕ) (c : Cache Unit)
    → k ≢ []
    → lookup k c.items ≡ some (tt, exp)
    → now < exp
    → (seen k now c).1 ≡ true
unfolding seen
seen-hit k exp now c ne h lt = rw (filled k ne, h, lt→ltb now exp lt) refl

seen-live :
    (k : Text) (exp now : ℕ) (c : Cache Unit)
    → lookup k c.items ≡ some (tt, exp)
    → now < exp
    → (seen k now c).0 ≡ c
unfolding seen
seen-live k exp now c h lt = elim (Bool-cases (is_empty k)) [
  | inl e ↦ rw e refl
  | inr e ↦ rw (e, h, lt→ltb now exp lt) refl
]

true-ne-false : (b : Bool) → b ≡ true → b ≡ false → ⊥
true-ne-false b t f = absurd (ground arith)

seen-keeps :
    (k j : Text) (exp now : ℕ) (c : Cache Unit)
    → lookup k c.items ≡ some (tt, exp)
    → now < exp
    → lookup k (seen j now c).0.items ≡ some (tt, exp)
unfolding seen
seen-keeps k j exp now c h lt = elim (Bool-cases (is_empty j)) [
  | inl e ↦ rw e h
  | inr e ↦ elim (Bool-cases (text_eq j k)) [
    | inl q ↦
        subst (λ i. lookup k (seen i now c).0.items ≡ some (tt, exp)) (sym ((text_eq_iff j k).0 q))
          (rw (seen-live k exp now c h lt) h)
    | inr q ↦ elim (Option-cases (lookup j c.items)) [
      | inl l ↦ rw (e, l) (put-keeps k j tt tt exp now c h (apart j q) (omega arith))
      | inr ((_, until), l) ↦ elim (Bool-cases (ltb now until)) [
        | inl b ↦ rw (e, l, b) h
        | inr b ↦
            rw (e, l, b)
              (put-keeps k j tt tt exp now (record c { items = erase j c.items })
                (rw (lookup-erase, q) h) (apart j q) (omega arith))
      ]
    ]
  ]
]
  where
    apart : (i : Text) → text_eq i k ≡ false → i ≢ k
    apart i q e = absurd (ground (arith, text_eq_iff i k))

seen_all-keeps :
    (k : Text) (exp : ℕ) (calls : List (Text × ℕ)) (c : Cache Unit)
    → lookup k c.items ≡ some (tt, exp)
    → All (λ e. e.1 < exp) calls
    → lookup k (seen_all calls c).items ≡ some (tt, exp)
seen_all-keeps k exp [] c h lt = h
seen_all-keeps k exp ((j, now) ∷ calls) c h lt =
    seen_all-keeps k exp calls (seen j now c).0 (seen-keeps k j exp now c h lt.0) lt.1

seen-there :
    (k : Text) (now : ℕ) (c : Cache Unit)
    → k ≢ []
    → (seen k now c).1 ≡ false
    → lookup k (seen k now c).0.items ≡ some (tt, now + c.ttl)
unfolding seen
seen-there k now c ne h = elim (Option-cases (lookup k c.items)) [
  | inl l ↦ rw (filled k ne, l) (put-there k tt now c)
  | inr ((_, until), l) ↦ elim (Bool-cases (ltb now until)) [
    | inl b ↦ absurd (true-ne-false _ (seen-hit k until now c ne l (ltb→lt now until b)) h)
    | inr b ↦ rw (filled k ne, l, b) (put-there k tt now (record c { items = erase k c.items }))
  ]
]

-- A message id that is not empty and was new at a time is a duplicate at every time before its time
-- to live is over, whatever calls of `Seen` came between, all of them before that end too.
pub seen_again :
    (k : Text) (now later : ℕ) (calls : List (Text × ℕ)) (c : Cache Unit)
    → k ≢ []
    → (seen k now c).1 ≡ false
    → All (λ e. e.1 < now + c.ttl) calls
    → later < now + c.ttl
    → (seen k later (seen_all calls (seen k now c).0)).1 ≡ true
seen_again k now later calls c ne fresh between before =
    seen-hit k (now + c.ttl) later _ ne
      (seen_all-keeps k (now + c.ttl) calls _ (seen-there k now c ne fresh) between) before
