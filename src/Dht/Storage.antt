-- ===== src/Dht/Storage.antt =====
-- kStore.go: what the calls of the store keep, and what a stored pair is found by.
use bit_torrent_project.Common.{
  ℕ, ◌+◌, ◌<◌, ◌≡◌, inl, inr, sym, subst, List, [], ◌∷◌, ◌||◌, Option, some, length, ltb, ◌==◌,
  nat_eq, bytes_eq, bytes_eq_instance, Outcome, ok, ◌>>=◌, bind-ok, or_panic, arith, Bool-cases,
  Option-cases,
}
use bit_torrent_project.Common.Dict.{
  Dict, lookup, has, insert, delete, lookup-insert, lookup-delete,
}
use bit_torrent_project.Dht.Store.{
  KStore, new_kstore, time_key, add_value, stored, with_pair, store, key_of, value_of, remove,
  remove_key_value, without_pair, expire_entry, expire_loop, expire_keys, republish_loop,
  get_key_values_to_republish,
}
use bit_torrent_project.Dht.Ordered.{
  member, IsSorted, add_value-insert_sorted, insert_sorted-IsSorted, without-IsSorted,
  drop_value-without, length-without, length-insert_sorted,
}

-- A list of values that a key may have.
abbrev pub IsListed : List (List ℕ) → Type 0
IsListed vs = IsSorted vs × (0 < length vs)

-- Every key has values, sorted without repetition.
abbrev pub IsStore : Dict (List ℕ) (List (List ℕ)) → Type 0
IsStore m = (k : List ℕ) (vs : List (List ℕ)) → lookup k m ≡ some vs → IsListed vs

some_eq {ℓ} : {A : Type ℓ} (a b : A) → Option.some a ≡ some b → a ≡ b
some_eq a b h = cc

ok_eq {ℓ} : {E : Type 0} {A : Type ℓ} (a b : A) → ◌≡◌ {A = Outcome E A} (ok a) (ok b) → a ≡ b
ok_eq a b h = cc

insert-IsStore :
    (key : List ℕ) (ws : List (List ℕ)) (m : Dict (List ℕ) (List (List ℕ)))
    → IsListed ws
    → IsStore m
    → IsStore (insert key ws m)
insert-IsStore key ws m h s k vs e = elim (Bool-cases (bytes_eq key k)) [
  | inl t ↦ subst IsListed (some_eq ws vs (ground (arith, lookup-insert key k ws m))) h
  | inr f ↦ s k vs (ground (arith, lookup-insert key k ws m))
]

delete-IsStore :
    (key : List ℕ) (m : Dict (List ℕ) (List (List ℕ))) → IsStore m → IsStore (delete key m)
delete-IsStore key m s k vs e = s k vs (ground (arith, lookup-delete key k m))

add_value-IsListed : (v : List ℕ) (vs : List (List ℕ)) → IsListed vs → IsListed (add_value v vs)
add_value-IsListed v vs h =
    rw (add_value-insert_sorted v vs) (insert_sorted-IsSorted v vs h.0, length-insert_sorted v vs)

stored-IsStore : (key v : List ℕ) (st : KStore) → IsStore st.data_map → IsStore (stored key v st)
unfolding stored
stored-IsStore key v st s = elim (Bool-cases (has (time_key key v) st.expiration_time_map)) [
  | inl t ↦ rw t s
  | inr f ↦ rw f (elim (Option-cases (lookup key st.data_map)) [
    | inl n ↦ rw n (insert-IsStore key _ st.data_map ((tt, tt), omega arith) s)
    | inr (vs, e) ↦ rw e (insert-IsStore key _ st.data_map (add_value-IsListed v vs (s key vs e)) s)
  ])
]

store-data :
    (now : ℕ) (key v : List ℕ) (x r : ℕ) (st st' : KStore)
    → store now key v x r st ≡ ok st'
    → st'.data_map ≡ stored key v st
unfolding store with_pair
store-data now key v x r st st' h = elim (Bool-cases (ltb x now || ltb r now)) [
  | inl t ↦ cc
  | inr f ↦ cc
]

pub remove_key_value-IsStore :
    (key v : List ℕ) (st : KStore)
    → IsStore st.data_map
    → IsStore (remove_key_value key v st).0.data_map
unfolding remove_key_value
remove_key_value-IsStore key v st s = elim (Option-cases (lookup key st.data_map)) [
  | inl n ↦ rw (n, remove_key_value) s
  | inr (vs, e) ↦ elim (Bool-cases (member v vs)) [
    | inr f ↦ rw (e, remove_key_value, drop_value-without v vs (s key vs e).0, f) s
    | inl t ↦ elim (Bool-cases (length vs == 1)) [
      | inl one ↦
          rw (e, remove_key_value, drop_value-without v vs (s key vs e).0, t)
            (rw one (delete-IsStore key st.data_map s))
      | inr more ↦
          rw (e, remove_key_value, drop_value-without v vs (s key vs e).0, t)
            (rw more (
              insert-IsStore key _ st.data_map
                (
                  without-IsSorted v vs (s key vs e).0,
                  ground (arith, length-without v vs t, (s key vs e).1),
                )
                s))
    ]
  ]
]

remove-IsStore :
    (key : List ℕ) (st : KStore) → IsStore st.data_map → IsStore (remove key st).0.data_map
unfolding remove
remove-IsStore key st s = elim (Bool-cases (has key st.data_map)) [
  | inl t ↦ rw t (delete-IsStore key st.data_map s)
  | inr f ↦ rw f s
]

expire_entry-IsStore :
    (k : List ℕ) (st st' : KStore)
    → expire_entry k st ≡ ok st'
    → IsStore st.data_map
    → IsStore st'.data_map
unfolding expire_entry without_pair
expire_entry-IsStore k st st' h s =
    let (value, e, f) = bind-ok (or_panic (value_of k)) _ h in
    subst (λ (x : KStore). IsStore x.data_map) (ok_eq _ st' f)
      (remove_key_value-IsStore (key_of k) value st s)

expire_loop-IsStore :
    (now : ℕ) (m : Dict (List ℕ) ℕ) (st st' : KStore)
    → expire_loop now m st ≡ ok st'
    → IsStore st.data_map
    → IsStore st'.data_map
unfolding expire_loop
expire_loop-IsStore now [] st st' h s =
    subst (λ (x : KStore). IsStore x.data_map) (ok_eq st st' h) s
expire_loop-IsStore now ((k, t) ∷ m) st st' h s = elim (Bool-cases (ltb t now)) [
  | inr f ↦ expire_loop-IsStore now m st st' (rw (f, expire_loop) at h) s
  | inl late ↦
      let h' : (expire_entry k st >>= λ (st' : KStore). expire_loop now m st') ≡ ok st' =
        rw (late, expire_loop) at h in
      let (mid, e, f) = bind-ok (expire_entry k st) (λ (st' : KStore). expire_loop now m st') h' in
      expire_loop-IsStore now m mid st' f (expire_entry-IsStore k st mid e s)
]

republish-data :
    (now time_rep : ℕ) (st st' : KStore) (found : List (List ℕ × List ℕ))
    → get_key_values_to_republish now time_rep st ≡ ok (found, st')
    → st.data_map ≡ st'.data_map
unfolding get_key_values_to_republish
republish-data now time_rep st st' found h =
    let (r, e, f) =
      bind-ok (republish_loop now (now + time_rep) st.republish_time_map st.republish_time_map) _
        h in
    cc

-- The calls that change the store.
pub data Step : KStore → KStore → Type 0 where
  stores :
      (now : ℕ) (key v : List ℕ) (x r : ℕ) (st st' : KStore)
      → store now key v x r st ≡ ok st'
      → Step st st'
  removes : (key : List ℕ) (st : KStore) → Step st (remove key st).0
  removes_value : (key v : List ℕ) (st : KStore) → Step st (remove_key_value key v st).0
  expires : (now : ℕ) (st st' : KStore) → expire_keys now st ≡ ok st' → Step st st'
  republishes :
      (now time_rep : ℕ) (st st' : KStore) (found : List (List ℕ × List ℕ))
      → get_key_values_to_republish now time_rep st ≡ ok (found, st')
      → Step st st'

pub data Reach : KStore → Type 0 where
  start : Reach new_kstore
  next : (st st' : KStore) → Reach st → Step st st' → Reach st'

Step-IsStore : (st st' : KStore) → Step st st' → IsStore st.data_map → IsStore st'.data_map
unfolding expire_keys
Step-IsStore _ _ (stores now key v x r st st' h) s =
    subst IsStore (sym (store-data now key v x r st st' h)) (stored-IsStore key v st s)
Step-IsStore _ _ (removes key st) s = remove-IsStore key st s
Step-IsStore _ _ (removes_value key v st) s = remove_key_value-IsStore key v st s
Step-IsStore _ _ (expires now st st' h) s =
    expire_loop-IsStore now st.expiration_time_map st st' h s
Step-IsStore _ _ (republishes now time_rep st st' found h) s =
    subst IsStore (republish-data now time_rep st st' found h) s

-- However the calls of the store follow each other, from an empty store on, every key that it
-- knows has at least one value, and the values of a key are sorted without repetition.
pub reachable-IsStore : (st : KStore) → Reach st → IsStore st.data_map
unfolding new_kstore
reachable-IsStore _ start = λ k vs h. cc
reachable-IsStore _ (next st st' r step) = Step-IsStore st st' step (reachable-IsStore st r)
