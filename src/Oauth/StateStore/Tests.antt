-- ===== src/Oauth/StateStore/Tests.antt =====
-- A login that starts at second 1000 and is called back at second 1100.
use native.Mathlib.Decide.{ℕ_discrete}
use nagent.Prelude.{
  ℕ, ◌+◌, ◌-◌, ◌<◌, ◌≡◌, refl, List, [], ◌∷◌, sym, ◌∙◌, ltb, some, none, if◌then◌else◌, arith,
}
use nagent.Prelude.Text.{Text, codes}
use nagent.Collections.{DashMap, discrete_map}
use nagent.Collections.Assoc.{lookup, without}
use nagent.Support.TtlMap.{Entry, insert, sweep_expired, insert_new, enforce_cap, sweep_expired_at}
use nagent.Oauth.StateStore.{
  StateStoreEntry, StateStore, entry_now, state_ttl, max_state_entries, push, pop,
}
use nagent.Oauth.StateStore.RoundTrip.{StoreStep, starts, peeks, run, AreApart, pop-push}

Text-discrete : Discrete Text
Text-discrete = hlevel ℕ_discrete

abbrev entries : DashMap Text (Entry (StateStoreEntry ℕ))
entries = discrete_map Text-discrete (Entry (StateStoreEntry ℕ))

abbrev empty : StateStore entries
empty = record {
  inner = record { inner = entries.empty; ttl = state_ttl; max_entries = max_state_entries };
}

-- a coding that leaves the bytes
abbrev same : Text → Text
same bytes = bytes

no_entries :
    (j : Text) (e : Entry (StateStoreEntry ℕ))
    → entries.get entries.empty j ≡ some e
    → e.expires_at < 5 + state_ttl
no_entries j e h = ground (arith, sym (entries.get-empty j) ∙ h)

-- another login starts in between
abbrev between : List (StoreStep ℕ)
between = starts (codes "other") 43 6 1050 ∷ peeks (codes "token") 7 1060 ∷ []

abbrev started : StateStore entries
started = (push same empty (codes "token") 42 5 1000).0

apart : AreApart same (codes "token") 7 started between
unfolding push insert sweep_expired insert_new enforce_cap sweep_expired_at lookup without
    Text-discrete ℕ_discrete
apart = ((refl, omega arith, omega arith), (omega arith, tt))

pop-push_example :
    let s' = run same started between in
    ((pop s' (codes "token") 1100).1
      ≡ (if ltb (1100 - 1000) 600 then some (entry_now 42 1000) else none))
    × ((pop (pop s' (codes "token") 1100).0 (codes "token") 1101).1 ≡ none)
unfolding push
pop-push_example =
    pop-push same empty (codes "token") 42 5 1000 7 1100 1101 between (omega arith) (omega arith)
      no_entries apart
