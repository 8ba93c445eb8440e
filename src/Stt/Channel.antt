-- ===== src/Stt/Channel.antt =====
-- The channels that the speech sessions use. `Channels` is the interface of those of the `tokio`
-- crate: a family of channels, each with one receiver, with the documented behaviour that the program
-- relies on: what is sent arrives once and in order, and a send fails without a receiver. Each channel
-- is seen as the log of what is sent over it. Where a channel is bounded, a send waits until there is
-- room, which delays it and changes no log. `listed` is an instance, the logs in a map.
use nagent.Prelude.{
  ◌≡◌, ◌↔◌, refl, Bool, true, false, Option, none, some, List, [], ◌∷◌, ◌++◌, arith, Option-cases,
  inl, inr, if◌then◌else◌,
}
use nagent.Collections.{DashMap}

-- a message at the end of a log, if there is still a receiver
abbrev pub logged : {M : Type 0} → M → Option (List M) → Option (List M)
logged m none = none
logged m (some ms) = some (ms ++ m ∷ [])

abbrev pub is_open : {M : Type 0} → Option (List M) → Bool
is_open none = false
is_open (some _) = true

pub record Channels (K M : Type 0) : Type 1 where
  pub Chans : Type 0
  pub key_eq : K → K → Bool
  pub closed : Chans
  -- a new channel with its receiver
  pub channel : Chans → K → Chans
  -- `send`: whether the message was taken
  pub send : Chans → K → M → Chans × Bool
  -- the receiver goes
  pub close : Chans → K → Chans
  -- all messages sent to the receiver, those it has taken included, in the order in which it takes
  -- them; `none` without a receiver
  pub log : Chans → K → Option (List M)
  pub key_eq_iff : (j k : K) → (key_eq j k ≡ true) ↔ (j ≡ k)
  pub log-closed : (k : K) → log closed k ≡ none
  pub log-channel :
      (c : Chans) (k j : K) → log (channel c k) j ≡ (if key_eq k j then some [] else log c j)
  pub log-send :
      (c : Chans) (k : K) (m : M) (j : K)
      → log (send c k m).0 j ≡ (if key_eq k j then logged m (log c k) else log c j)
  pub send_is_open : (c : Chans) (k : K) (m : M) → (send c k m).1 ≡ is_open (log c k)
  pub log-close : (c : Chans) (k j : K) → log (close c k) j ≡ (if key_eq k j then none else log c j)

module _ {K M : Type 0} (d : DashMap K (List M)) where
  abbrev pub put_log : d.Map → K → Option (List M) → d.Map
  put_log c k none = c
  put_log c k (some ms) = d.insert c k ms

  pub get-put_log :
      (c : d.Map) (k : K) (m : M) (j : K)
      → d.get (put_log c k (logged m (d.get c k))) j
        ≡ (if d.key_eq k j then logged m (d.get c k) else d.get c j)
  get-put_log c k m j = elim (Option-cases (d.get c k)) [
    | inl absent ↦ ground (arith, absent, d.key_eq_iff k j)
    | inr (ms, e) ↦ ground (arith, e, d.get-insert c k (ms ++ m ∷ []) j)
  ]

  abbrev pub listed : Channels K M
  listed = record {
    Chans = d.Map;
    key_eq = d.key_eq;
    closed = d.empty;
    channel = λ c k. d.insert c k [];
    send = λ c k m. (put_log c k (logged m (d.get c k)), is_open (d.get c k));
    close = d.remove;
    log = d.get;
    key_eq_iff = d.key_eq_iff;
    log-closed = d.get-empty;
    log-channel = λ c k j. d.get-insert c k [] j;
    log-send = get-put_log;
    send_is_open = λ c k m. refl;
    log-close = d.get-remove;
  }
