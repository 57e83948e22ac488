-- ===== src/Query/Interleaving.antt =====
-- Everything that can happen to a cache, in any order.
use frontdashboard.Prelude.{ℕ, refl, String, Bool, Option, [], ◌⊎◌}
use frontdashboard.Query.{
  QueryState, Cache, Request, ensure_entry, begin_fetch, fetch_if_stale, complete_fetch,
  invalidate_where, update_where, seed, subscribe, unsubscribe, mount, reset,
}
use frontdashboard.Query.Coherence.{
  IsCoherent, IsQuiet, ensure_entry-IsCoherent, begin_fetch-IsCoherent, fetch_if_stale-IsCoherent,
  mount-IsCoherent, seed-IsCoherent, subscribe-IsCoherent, invalidate_where-IsCoherent,
  complete_fetch-IsCoherent, unsubscribe-IsCoherent, update_where-IsCoherent, reset-IsCoherent,
}

abbrev pub empty_cache {ℓ} : {S A : Type ℓ} → Cache S A
empty_cache = record { entries = []; next = 0 }

-- A step from a cache: a call, or a response to any request that was ever sent.
pub data Step {ℓ} {S A : Type ℓ} (get_key : S → String) (cap : ℕ) (c : Cache S A)
    : Cache S A → Type ℓ where
  fetched :
      (scope : S) (background : Option Bool)
      → Step get_key cap c (begin_fetch get_key cap scope background c).0
  read : (scope : S) → Step get_key cap c (ensure_entry get_key cap scope c).0
  fetched_if_stale : (scope : S) → Step get_key cap c (fetch_if_stale get_key cap scope c).0
  responded : (r : Request S) (result : A ⊎ String) → Step get_key cap c (complete_fetch r result c)
  invalidated :
      (holds : S → Bool) (active_only : Bool) (background : Option Bool)
      → Step get_key cap c (invalidate_where get_key cap holds active_only background c).0
  updated :
      (holds : S → Bool) (updater : QueryState A → S → QueryState A)
      → IsQuiet get_key updater
      → Step get_key cap c (update_where holds updater c)
  seeded : (scope : S) (data_ : A) → Step get_key cap c (seed get_key cap scope data_ c)
  subscribed : (scope : S) → Step get_key cap c (subscribe get_key cap scope c).0
  unsubscribed : (number : ℕ) → Step get_key cap c (unsubscribe number c)
  mounted : (scope : S) → Step get_key cap c (mount get_key cap scope c).0
  signed_out : Step get_key cap c (reset c)

pub data Reach {ℓ} {S A : Type ℓ} (get_key : S → String) (cap : ℕ) : Cache S A → Type ℓ where
  here : Reach get_key cap empty_cache
  next : {c c' : Cache S A} → Reach get_key cap c → Step get_key cap c c' → Reach get_key cap c'

module _ {ℓ} {S A : Type ℓ} (get_key : S → String) (cap : ℕ) where
  Step-IsCoherent :
      {c c' : Cache S A} → IsCoherent get_key c → Step get_key cap c c' → IsCoherent get_key c'
  Step-IsCoherent {c} v (fetched scope background) =
      begin_fetch-IsCoherent get_key cap scope background c v
  Step-IsCoherent {c} v (read scope) = ensure_entry-IsCoherent get_key cap scope c v
  Step-IsCoherent {c} v (fetched_if_stale scope) = fetch_if_stale-IsCoherent get_key cap scope c v
  Step-IsCoherent {c} v (responded r result) = complete_fetch-IsCoherent get_key r result c v
  Step-IsCoherent {c} v (invalidated holds active_only background) =
      invalidate_where-IsCoherent get_key cap holds active_only background c v
  Step-IsCoherent {c} v (updated holds updater q) =
      update_where-IsCoherent get_key holds updater c q v
  Step-IsCoherent {c} v (seeded scope data_) = seed-IsCoherent get_key cap scope data_ c v
  Step-IsCoherent {c} v (subscribed scope) = subscribe-IsCoherent get_key cap scope c v
  Step-IsCoherent {c} v (unsubscribed number) = unsubscribe-IsCoherent get_key number c v
  Step-IsCoherent {c} v (mounted scope) = mount-IsCoherent get_key cap scope c v
  Step-IsCoherent {c} v signed_out = reset-IsCoherent get_key c v

  -- However a cache is used, and in whatever order responses arrive: no key is held twice, every
  -- entry is under the key of its scope, and an entry shows a spinner only while a request for it
  -- is in flight. The updaters that are applied are assumed to raise no spinner themselves.
  pub Reach-IsCoherent : {c : Cache S A} → Reach get_key cap c → IsCoherent get_key c
  Reach-IsCoherent here = record { dict = refl; good = tt }
  Reach-IsCoherent (next r s) = Step-IsCoherent (Reach-IsCoherent r) s
