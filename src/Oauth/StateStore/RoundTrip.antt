-- ===== src/Oauth/StateStore/RoundTrip.antt =====
-- What a callback gets for the token of its start.
use nagent.Prelude.{
  ℕ, ◌+◌, ◌-◌, ◌<◌, ◌≤◌, ◌≡◌, refl, false, inr, List, [], ◌∷◌, ap, ◌∙◌, ltb, none, some,
  if◌then◌else◌, arith,
}
use nagent.Prelude.Text.{Text}
use nagent.Collections.{DashMap}
use nagent.Support.TtlMap.{TtlMap, Entry, remove, len, sweep_expired}
use nagent.Support.TtlMap.View.{view, view-insert, view-insert_self, get-view}
use nagent.Support.TtlMap.Lifecycle.{remove-view}
use nagent.Oauth.StateStore.{
  StateStoreEntry, StateStore, entry_now, is_expired, if_fresh, push, pop, peek,
}

fresh_iff :
    {Json : Type 0} (payload : Json) (started called : ℕ)
    → if_fresh (some (entry_now payload started)) called
      ≡ (if ltb (called - started) 600 then some (entry_now payload started) else none)
unfolding if_fresh is_expired
fresh_iff payload started called = ground arith

remove_twice :
    {V : Type 0} {d : DashMap Text (Entry V)} (m : TtlMap d) (k : Text)
    → (remove (remove m k).0 k).1 ≡ none
unfolding remove
remove_twice {V} {d} m k = rw (d.get-remove m.inner k k, (d.key_eq_iff k k).1 refl) refl

remove-view_other :
    {V : Type 0} {d : DashMap Text (Entry V)} (m : TtlMap d) (j k : Text) (t : ℕ)
    → d.key_eq j k ≡ false
    → view (remove m j).0 t k ≡ view m t k
unfolding remove view
remove-view_other {V} {d} m j k t other = rw (d.get-remove m.inner j k, other) refl

-- what other logins do to the store
pub data StoreStep (Json : Type 0) : Type 0 where
  starts : Text → Json → ℕ → ℕ → StoreStep Json
  calls_back : Text → ℕ → StoreStep Json
  peeks : Text → ℕ → ℕ → StoreStep Json

module _ {Json : Type 0} {d : DashMap Text (Entry (StateStoreEntry Json))}
    (base64_url : Text → Text) where
  abbrev pub step : StateStore d → StoreStep Json → StateStore d
  step s (starts bytes payload now now_unix) = (push base64_url s bytes payload now now_unix).0
  step s (calls_back token now_unix) = (pop s token now_unix).0
  step s (peeks token now now_unix) = (peek s token now now_unix).0

  abbrev pub run : StateStore d → List (StoreStep Json) → StateStore d
  run s [] = s
  run s (x ∷ xs) = run (step s x) xs

  -- a step up to the instant `last` that is about another token than `k`, or only looks; a start finds
  -- room in the store
  abbrev pub IsApart : Text → ℕ → StateStore d → StoreStep Json → Type 0
  IsApart k last s (starts bytes payload now now_unix) =
      (d.key_eq (base64_url bytes) k ≡ false)
      × (now ≤ last)
      × (len (sweep_expired s.inner now).0 < s.inner.max_entries)
  IsApart k last s (calls_back token now_unix) = d.key_eq token k ≡ false
  IsApart k last s (peeks token now now_unix) = now ≤ last

  abbrev pub AreApart : Text → ℕ → StateStore d → List (StoreStep Json) → Type 0
  AreApart k last s [] = Unit
  AreApart k last s (x ∷ xs) = IsApart k last s x × AreApart k last (step s x) xs

  view-step :
      (k : Text) (last : ℕ) (s : StateStore d) (x : StoreStep Json)
      → IsApart k last s x
      → view (step s x).inner last k ≡ view s.inner last k
  unfolding push pop peek
  view-step k last s (starts bytes payload now now_unix) (other, le, room) =
      view-insert s.inner (base64_url bytes) (entry_now payload now_unix) now last k (inr room) le
      ∙ rw other refl
  view-step k last s (calls_back token now_unix) other =
      remove-view_other s.inner token k last other
  view-step k last s (peeks token now now_unix) le = (get-view s.inner token now).1 last k le

  view-run :
      (k : Text) (last : ℕ) (s : StateStore d) (xs : List (StoreStep Json))
      → AreApart k last s xs
      → view (run s xs).inner last k ≡ view s.inner last k
  view-run k last s [] h = refl
  view-run k last s (x ∷ xs) (here, later) =
      view-run k last (step s x) xs later ∙ view-step k last s x here

  -- A callback that brings the token of a start gets the payload of that start for ten minutes of the
  -- wall clock, and nothing afterwards, whatever logins with other tokens start, are looked at and come
  -- back in between; a second callback with the token gets nothing. (The store's lifetimes are not
  -- zero. At the start it can hold an entry, and every other entry expires before the new one; the
  -- starts in between find room, so that none evicts the entry, and they come before it expires.)
  pub pop-push :
      (s : StateStore d) (bytes : Text) (payload : Json) (now started last called again : ℕ)
      (between : List (StoreStep Json))
      → 0 < s.inner.max_entries
      → last < now + s.inner.ttl
      → ((j : Text) (e : Entry (StateStoreEntry Json))
          → d.get s.inner.inner j ≡ some e
          → e.expires_at < now + s.inner.ttl)
      → AreApart (base64_url bytes) last (push base64_url s bytes payload now started).0 between
      → let (pushed, token) = push base64_url s bytes payload now started in
        let s' = run pushed between in
        ((pop s' token called).1
          ≡ (if ltb (called - started) 600 then some (entry_now payload started) else none))
        × ((pop (pop s' token called).0 token again).1 ≡ none)
  unfolding push pop if_fresh
  pop-push s bytes payload now started last called again between room lives expires apart =
      let token = base64_url bytes in
      let pushed = (push base64_url s bytes payload now started).0 in
      let m = (run pushed between).inner in
      let there : view m last token ≡ some (entry_now payload started) =
        view-run token last pushed between apart
        ∙ view-insert_self s.inner token (entry_now payload started) now last room expires lives in
      (
        ap (λ o. if_fresh o called)
              (remove-view m token (entry_now payload started) last last token there).0
            ∙ fresh_iff payload started called,
        ap (λ o. if_fresh o again) (remove_twice m token),
      )
