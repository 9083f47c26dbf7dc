-- ===== src/Dht/Expiry.antt =====
-- kStore.go: what `ExpireKeys` leaves.
use bit_torrent_project.Common.{
  ℕ, ◌≡◌, inl, inr, refl, List, [], ◌∷◌, Bool, true, false, ◌&&◌, none, some, length, ltb, ◌==◌,
  nat_eq, bytes_eq, bytes_eq_instance, bytes_eq_iff, if◌then◌else◌, ok, arith, Bool-cases,
  Option-cases,
}
use bit_torrent_project.Common.Dict.{Dict, lookup, lookup-insert, lookup-delete}
use bit_torrent_project.Dht.Store.{
  KStore, key_of, value_of, drop_value, remove_key_value, without_pair, expire_entry, expire_loop,
  expire_keys,
}
use bit_torrent_project.Dht.Ordered.{member, without, drop_value-without, member-without}
use bit_torrent_project.Dht.Storage.{IsStore, remove_key_value-IsStore}
use bit_torrent_project.Dht.Retrieval.{values_of}

remove_key_value-times :
    (key v : List ℕ) (st : KStore)
    → (remove_key_value key v st).0.expiration_time_map ≡ st.expiration_time_map
unfolding remove_key_value
remove_key_value-times key v st = elim (Option-cases (lookup key st.data_map)) [
  | inl n ↦ rw (n, remove_key_value) refl
  | inr (vs, e) ↦ elim (Option-cases (drop_value v vs)) [
    | inl n ↦ rw (e, remove_key_value, n) refl
    | inr (rest, f) ↦ rw (e, remove_key_value, f) refl
  ]
]

no_value_left :
    (v w : List ℕ) (vs : List (List ℕ))
    → length vs ≡ 1
    → member v vs ≡ true
    → member w vs ≡ bytes_eq v w
no_value_left v w [] h e = cc
no_value_left v w (x ∷ []) h e =
    ground (arith, bytes_eq_iff x v, bytes_eq_iff x w, bytes_eq_iff v w)
no_value_left v w (x ∷ y ∷ vs) h e = absurd (omega arith)

-- `RemoveKeyValue` takes this value from this key and nothing else.
pub remove_key_value-member :
    (key v k w : List ℕ) (st : KStore)
    → IsStore st.data_map
    → member w (values_of k (remove_key_value key v st).0)
      ≡ (if bytes_eq key k && bytes_eq v w then false else member w (values_of k st))
unfolding remove_key_value
remove_key_value-member key v k w st s = elim (Option-cases (lookup key st.data_map)) [
  | inl n ↦ rw (n, remove_key_value) (ground (arith, bytes_eq_iff key k))
  | inr (vs, e) ↦ elim (Bool-cases (member v vs)) [
    | inr f ↦
        rw (e, remove_key_value, drop_value-without v vs (s key vs e).0, f)
          (ground (arith, bytes_eq_iff key k, bytes_eq_iff v w))
    | inl t ↦ elim (Bool-cases (length vs == 1)) [
      | inl one ↦
          rw (e, remove_key_value, drop_value-without v vs (s key vs e).0, t)
            (rw one (
              ground
                (arith, lookup-delete key k st.data_map, bytes_eq_iff key k, no_value_left v w vs)))
      | inr more ↦
          rw (e, remove_key_value, drop_value-without v vs (s key vs e).0, t)
            (rw more (
              ground (
                arith,
                lookup-insert key k (without v vs) st.data_map,
                bytes_eq_iff key k,
                member-without v w vs (s key vs e).0,
              )))
    ]
  ]
]

-- Every time entry can be read as a key and a value.
abbrev pub AllReadable : Dict (List ℕ) ℕ → Type 0
AllReadable [] = Unit {0}
AllReadable ((k, t) ∷ m) = ((v : List ℕ) × (value_of k ≡ some v)) × AllReadable m

-- Is the entry under this name late?
abbrev pub is_late : ℕ → List ℕ → Dict (List ℕ) ℕ → Bool
is_late now j [] = false
is_late now j ((k, t) ∷ m) = if ltb t now && bytes_eq k j then true else is_late now j m

-- Does a late entry read as this pair?
abbrev pub is_expired : ℕ → List ℕ → List ℕ → Dict (List ℕ) ℕ → Bool
is_expired now key w [] = false
is_expired now key w ((k, t) ∷ m) =
    if ltb t now
      && (bytes_eq (key_of k) key && elim (value_of k) [ none ↦ false | some v ↦ bytes_eq v w ])
    then true
    else is_expired now key w m

without_pair-IsStore :
    (k key v : List ℕ) (st : KStore)
    → IsStore st.data_map
    → IsStore (without_pair k key v st).data_map
unfolding without_pair
without_pair-IsStore k key v st s = remove_key_value-IsStore key v st s

without_pair-times :
    (k j key v : List ℕ) (st : KStore)
    → lookup j (without_pair k key v st).expiration_time_map
      ≡ (if bytes_eq k j then none else lookup j st.expiration_time_map)
unfolding without_pair
without_pair-times k j key v st =
    rw (remove_key_value-times key v st) (lookup-delete k j st.expiration_time_map)

without_pair-member :
    (j key v k w : List ℕ) (st : KStore)
    → IsStore st.data_map
    → member w (values_of k (without_pair j key v st))
      ≡ (if bytes_eq key k && bytes_eq v w then false else member w (values_of k st))
unfolding without_pair
without_pair-member j key v k w st s = remove_key_value-member key v k w st s

expire_loop_lem :
    (now : ℕ) (m : Dict (List ℕ) ℕ) (st : KStore) (key w j : List ℕ)
    → AllReadable m
    → IsStore st.data_map
    → (st' : KStore) × (expire_loop now m st ≡ ok st')
      × (lookup j st'.expiration_time_map
          ≡ (if is_late now j m then none else lookup j st.expiration_time_map))
      × (member w (values_of key st')
          ≡ (if is_expired now key w m then false else member w (values_of key st)))
unfolding expire_loop expire_entry
expire_loop_lem now [] st key w j a s = (st, refl, refl, refl)
expire_loop_lem now ((k, t) ∷ m) st key w j a s = elim (Bool-cases (ltb t now)) [
  | inr f ↦
      let (st', e, p, q) = expire_loop_lem now m st key w j a.1 s in
      (st', rw (f, expire_loop) e, rw f p, rw f q)
  | inl late ↦
      let (v, r) = a.0 in
      let mid = without_pair k (key_of k) v st in
      let (st', e, p, q) =
        expire_loop_lem now m mid key w j a.1 (without_pair-IsStore k (key_of k) v st s) in
      (
        st',
        rw (late, expire_loop, expire_entry, r) e,
        ground (arith, late, p, without_pair-times k j (key_of k) v st),
        ground (arith, late, q, r, without_pair-member k (key_of k) v key w st s),
      )
]

-- A call of `ExpireKeys` on a well-formed store whose time entries all contain the separator comes
-- to its end without a panic. Afterwards a name has the expiration time that it had, or none if an
-- entry under it was before now; and a key has a value exactly when it had it and no time entry
-- that was before now reads as this pair.
pub expire_keys-total :
    (now : ℕ) (st : KStore) (key w j : List ℕ)
    → AllReadable st.expiration_time_map
    → IsStore st.data_map
    → (st' : KStore) × (expire_keys now st ≡ ok st')
      × (lookup j st'.expiration_time_map ≡ (
          if is_late now j st.expiration_time_map then none else lookup j st.expiration_time_map))
      × (member w (values_of key st') ≡ (
          if is_expired now key w st.expiration_time_map
          then false
          else member w (values_of key st)))
unfolding expire_keys
expire_keys-total now st key w j a s = expire_loop_lem now st.expiration_time_map st key w j a s
