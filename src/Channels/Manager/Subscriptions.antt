-- ===== src/Channels/Manager/Subscriptions.antt =====
-- internal/kernel/channels/manager/manager.go: who is subscribed, and what `Apply` comes to.
use mathlib.Core.Option
use maven.Base.{
  Bool, true, false, Option, none, some, List, [], ◌∷◌, ◌++◌, ◌≡◌, refl, sym, ◌∙◌, subst, inl, inr,
  Bool-cases, All, if◌then◌else◌, is_some, map,
}
use maven.Base.Assoc.{lookup, erase, lookup-erase}
use maven.Base.Result.{Result}
use maven.Base.Text.{Text, codes, trim_space, text_eq}
use maven.Bus.Messages.{OutboundMessage}
use maven.Bus.Delivery.{Outcome, delivered, panicked, failed, Handler, Subscribers}
use maven.Channels.Manager.{
  Operations, Table, Manager, ManagerError, Action, stopped, started, configured, Wanted, wanted,
  unsubscribe_all, stop_all,
}
use maven.Channels.Manager.Names.{AllTrimmed, Fits, named}

-- What becomes of the outcome of a channel's `Send`.
abbrev pub Reports : Outcome → Outcome → Type 0
Reports delivered o = o ≡ delivered
Reports panicked o = o ≡ panicked
Reports (failed e) o = o ≡ failed (codes "channel: delivery failed: " ++ e)

abbrev or_else : {A : Type 0} → Option A → Option A → Option A
or_else none o = o
or_else (some a) o = some a

same_branches : {A : Type 0} (a : A) (b : Bool) → (if b then a else a) ≡ a
same_branches a true = refl
same_branches a false = refl

module _ {C V B : Type 0} where
  unsubscribe-lookup :
      (t : Table C) (subs : Subscribers V B) (k : Text)
      → AllTrimmed t
      → lookup k (unsubscribe_all t subs) ≡ (if is_some (lookup k t) then none else lookup k subs)
  unfolding unsubscribe_all lookup
  unsubscribe-lookup [] subs k h = refl
  unsubscribe-lookup ((n, c) ∷ t) subs k (h, hs) =
      unsubscribe-lookup t (erase (trim_space n) subs) k hs ∙ step
    where
      step :
          (if is_some (lookup k t) then none else lookup k (erase (trim_space n) subs))
          ≡ (if is_some (if text_eq n k then some c else lookup k t) then none else lookup k subs)
      step = elim (Bool-cases (text_eq n k)) [
        | inl e ↦ rw (h, lookup-erase n k subs, e) (same_branches none (is_some (lookup k t)))
        | inr e ↦ rw (h, lookup-erase n k subs, e) refl
      ]

module _ {C V B : Type 0} (ops : Operations C V B) where
  -- A handler that sends to the channel.
  abbrev pub Serves : C → Handler V B → Type 0
  Serves c f = (msg : OutboundMessage V B) → Reports (ops.send c msg) (f msg)

  abbrev pub Matches : Option C → Option (Handler V B) → Type 0
  Matches none none = Unit
  Matches none (some f) = ⊥
  Matches (some c) none = ⊥
  Matches (some c) (some f) = Serves c f

  -- A manager of which exactly the channels are subscribed, each by a handler that sends to it, and
  -- under names that the bus keeps.
  pub record IsManaged (m : Manager C V B) : Type 0 where
    pub subscribed : (k : Text) → Matches (lookup k m.channels) (lookup k m.subs)
    pub trimmed : AllTrimmed m.channels

  unmatched :
      (o : Option C) (f : Option (Handler V B))
      → Matches o f
      → (if is_some o then none else f) ≡ none
  unmatched none none h = refl
  unmatched none (some f) h = absurd h
  unmatched (some c) f h = refl

  all_unsubscribed :
      (m : Manager C V B) (k : Text)
      → IsManaged m
      → lookup k (unsubscribe_all m.channels m.subs) ≡ none
  all_unsubscribed m k h =
      unsubscribe-lookup m.channels m.subs k h.trimmed ∙ unmatched _ _ (h.subscribed k)

  -- `StopAll` leaves no channel and no subscription.
  pub stop_all-IsManaged : (m : Manager C V B) → IsManaged m → IsManaged (stop_all m).0
  unfolding stop_all lookup
  stop_all-IsManaged m h = record {
    subscribed = λ k. subst (Matches none) (sym (all_unsubscribed m k h)) tt;
    trimmed = tt;
  }

  -- The channels that show the commands in a menu.
  abbrev pub with_menu : Table C → Table C
  with_menu [] = []
  with_menu ((n, c) ∷ t) = if ops.takes_slashes c then (n, c) ∷ with_menu t else with_menu t

  abbrev pub AllStart : Table C → Type 0
  AllStart t = All (λ e. ops.start_error e.1 ≡ none) t

  -- All old channels have been stopped, and the channels of the table `next` run: those with a menu
  -- of commands were given the commands first, and there is no error exactly if all of them start.
  pub record Replaced (next : Table C) (m : Manager C V B)
      (r : Manager C V B × List (Action C) × Option ManagerError) : Type 0 where
    pub running : r.0.channels ≡ next
    pub slashes : r.0.pipeline_slashes ≡ m.pipeline_slashes
    pub did :
        r.1
        ≡ map (λ e. stopped e.1) m.channels
          ++ (map (λ e. configured e.1 m.pipeline_slashes) (with_menu next)
              ++ map (λ e. started e.1) next)
    pub all_start : AllStart next → r.2 ≡ none
    pub no_error : r.2 ≡ none → AllStart next

  -- What `Apply` comes to.
  pub record Applied (w : Wanted C) (m : Manager C V B)
      (r : Manager C V B × List (Action C) × Option ManagerError) : Type 0 where
    pub managed : IsManaged r.0
    pub replaced :
        (cs : List (Option C))
        → w ≡ wanted cs
        → Fits [] (named ops cs)
        → Replaced (named ops cs) m r
    pub refused :
        ((cs : List (Option C)) → w ≡ wanted cs → ¬ Fits [] (named ops cs))
        → (r.0 ≡ m) × (r.1 ≡ []) × (is_some r.2 ≡ true)
