-- ===== src/Dht/Retrieval.antt =====
-- kStore.go: what `Store` adds to the values of a key, and when a stored pair is found.
use bit_torrent_project.Common.{
  ℕ, ◌≤◌, ◌≡◌, inl, inr, List, [], ◌∷◌, true, false, ◌&&◌, none, some, nat_eq, bytes_eq,
  bytes_eq_instance, bytes_eq_iff, if◌then◌else◌, ok, arith, Bool-cases, Option-cases,
}
use bit_torrent_project.Common.Dict.{lookup, has, lookup-insert}
use bit_torrent_project.Dht.Store.{
  KStore, time_key, add_value, stored, with_pair, store, get_values,
}
use bit_torrent_project.Dht.Ordered.{member, add_value-insert_sorted, member-insert_sorted}

-- The values of a key, with none for a key that is not there.
abbrev pub values_of : List ℕ → KStore → List (List ℕ)
values_of key st = elim (lookup key st.data_map) [ none ↦ [] | some vs ↦ vs ]

-- What a stored pair adds to the values of each key.
stored-member :
    (key v k w : List ℕ) (st : KStore)
    → has (time_key key v) st.expiration_time_map ≡ false
    → member w (elim (lookup k (stored key v st)) [ none ↦ [] | some vs ↦ vs ])
      ≡ (if bytes_eq key k && bytes_eq v w then true else member w (values_of k st))
unfolding stored
stored-member key v k w st f = elim (Option-cases (lookup key st.data_map)) [
  | inl n ↦
      rw (f, n)
        (rw (lookup-insert key k (v ∷ []) st.data_map)
          (ground (arith, bytes_eq_iff key k, bytes_eq_iff v w)))
  | inr (vs, e) ↦
      rw (f, e)
        (rw (lookup-insert key k (add_value v vs) st.data_map, add_value-insert_sorted v vs)
          (ground (arith, bytes_eq_iff key k, member-insert_sorted v w vs)))
]

-- A call of `Store` that returns without an error, for a pair that has no expiration time yet,
-- adds the value to those of its key: afterwards a value is among those of a key exactly when it
-- is this pair or was there before. Such a call returns if both times lie ahead.
pub store-member :
    (now : ℕ) (key v : List ℕ) (x r : ℕ) (st : KStore) (k w : List ℕ)
    → has (time_key key v) st.expiration_time_map ≡ false
    → now ≤ x
    → now ≤ r
    → (st' : KStore) × (store now key v x r st ≡ ok st')
      × (member w (values_of k st')
          ≡ (if bytes_eq key k && bytes_eq v w then true else member w (values_of k st)))
unfolding store with_pair
store-member now key v x r st k w f hx hr =
    (with_pair key v x r st, ground arith, stored-member key v k w st f)

member-lookup :
    (key v : List ℕ) (st : KStore)
    → member v (values_of key st) ≡ true
    → (vs : List (List ℕ)) × (get_values key st ≡ some vs) × (member v vs ≡ true)
unfolding get_values
member-lookup key v st h = elim (Option-cases (lookup key st.data_map)) [
  | inl n ↦ absurd (ground (arith, n))
  | inr (vs, e) ↦ (vs, e, ground (arith, e))
]

-- A pair that has an expiration time is there.
abbrev pub IsTimed : List ℕ → List ℕ → KStore → Type 0
IsTimed key v st =
    has (time_key key v) st.expiration_time_map ≡ true → member v (values_of key st) ≡ true

with_pair-member :
    (key v : List ℕ) (x r : ℕ) (st : KStore)
    → IsTimed key v st
    → member v (values_of key (with_pair key v x r st)) ≡ true
unfolding with_pair stored
with_pair-member key v x r st h = elim (Bool-cases (has (time_key key v) st.expiration_time_map)) [
  | inl t ↦ rw t (h t)
  | inr f ↦ ground (arith, stored-member key v key v st f, bytes_eq_iff key key, bytes_eq_iff v v)
]

-- A pair that is stored ahead of its times is found by `GetValues`, if a pair with an expiration
-- time is there.
pub store-get_values :
    (now : ℕ) (key v : List ℕ) (x r : ℕ) (st : KStore)
    → IsTimed key v st
    → now ≤ x
    → now ≤ r
    → (st' : KStore) × (vs : List (List ℕ)) × (store now key v x r st ≡ ok st')
      × (get_values key st' ≡ some vs)
      × (member v vs ≡ true)
unfolding store
store-get_values now key v x r st h hx hr =
    let st' = with_pair key v x r st in
    let (vs, e, m) = member-lookup key v st' (with_pair-member key v x r st h) in
    (st', vs, ground arith, e, m)
