-- ===== src/Dht/Store.antt =====
-- kStore.go. Time is an argument; the channel that serves as a lock is taken at a call's start and
-- given back at its end, so that calls are steps. `GetAllPairs` gives it back from its own
-- goroutine, which on a channel without buffer waits for the next call.
use bit_torrent_project.Common.{
  ℕ, ◌+◌, List, [], ◌∷◌, ◌++◌, Bool, true, false, ◌||◌, ◌&&◌, Option, none, some, length, take,
  drop, get_elem?, ltb, ◌==◌, nat_eq, bytes_eq_instance, if◌then◌else◌, Outcome, ok, err, ◌>>=◌,
  or_panic, codes,
}
use bit_torrent_project.Common.Dict.{Dict, lookup, has, insert, delete}

pub record KStore : Type 0 where
  pub data_map : Dict (List ℕ) (List (List ℕ))
  pub expiration_time_map : Dict (List ℕ) ℕ
  pub republish_time_map : Dict (List ℕ) ℕ

unfoldable pub new_kstore : KStore
new_kstore = record { data_map = []; expiration_time_map = []; republish_time_map = [] }

-- `<` on strings.
abbrev pub str_lt : List ℕ → List ℕ → Bool
str_lt xs [] = false
str_lt [] (y ∷ ys) = true
str_lt (x ∷ xs) (y ∷ ys) = ltb x y || ((x == y) && str_lt xs ys)

-- `sort.SearchStrings`: the first index whose string is not less; on a sorted list its binary
-- search finds that index.
abbrev pub search_strings : List (List ℕ) → List ℕ → ℕ
search_strings [] x = 0
search_strings (v ∷ vs) x = if str_lt v x then search_strings vs x + 1 else 0

abbrev pub separator : List ℕ
separator = codes "/data:"

-- `key + "/data:" + data`.
abbrev pub time_key : List ℕ → List ℕ → List ℕ
time_key key value = key ++ (separator ++ value)

-- Where the value of a key that is known goes.
unfoldable pub add_value : List ℕ → List (List ℕ) → List (List ℕ)
add_value value vs = elim (get_elem? vs (search_strings vs value)) [
  | none ↦ vs ++ value ∷ []
  | some v ↦
      if v == value
      then vs
      else take (search_strings vs value) vs ++ value ∷ drop (search_strings vs value) vs
]

-- The data of the key after `Store`: as it was where the pair has an expiration time.
unfoldable pub stored : List ℕ → List ℕ → KStore → Dict (List ℕ) (List (List ℕ))
unfolding add_value
stored key value st =
    if has (time_key key value) st.expiration_time_map
    then st.data_map
    else (elim (lookup key st.data_map) [
      | none ↦ insert key (value ∷ []) st.data_map
      | some vs ↦ insert key (add_value value vs) st.data_map
    ])

pub data StoreError : Type 0 where
  time_in_the_past : StoreError

unfoldable pub with_pair : List ℕ → List ℕ → ℕ → ℕ → KStore → KStore
unfolding stored
with_pair key value expiration republish st = record {
  data_map = stored key value st;
  expiration_time_map = insert (time_key key value) expiration st.expiration_time_map;
  republish_time_map = insert (time_key key value) republish st.republish_time_map;
}

unfoldable pub store : ℕ → List ℕ → List ℕ → ℕ → ℕ → KStore → Outcome StoreError KStore
unfolding with_pair
store now key value expiration republish st =
    if ltb expiration now || ltb republish now
    then err time_in_the_past
    else ok (with_pair key value expiration republish st)

-- `GetValues`, with its second result as `none`.
unfoldable pub get_values : List ℕ → KStore → Option (List (List ℕ))
get_values key st = lookup key st.data_map

-- The rest of the string where it starts with the separator.
abbrev pub strip : List ℕ → List ℕ → Option (List ℕ)
strip [] s = some s
strip (p ∷ ps) [] = none
strip (p ∷ ps) (c ∷ s) = if p == c then strip ps s else none

-- What stands before the first separator, and what follows it if there is one.
abbrev pub cut : List ℕ → List ℕ → List ℕ × Option (List ℕ)
cut sep [] = ([], strip sep [])
cut sep (c ∷ s) = elim (strip sep (c ∷ s)) [
  | some rest ↦ ([], some rest)
  | none ↦ (c ∷ (cut sep s).0, (cut sep s).1)
]

-- `strings.Split(k, "/data:")[0]` and `[1]`.
unfoldable pub key_of : List ℕ → List ℕ
key_of k = (cut separator k).0

unfoldable pub value_of : List ℕ → Option (List ℕ)
value_of k = elim (cut separator k).1 [ none ↦ none | some rest ↦ some (cut separator rest).0 ]

-- The loop of `Remove`: the time entries of the key go.
unfoldable pub without_key : List ℕ → Dict (List ℕ) ℕ → List (List ℕ)
unfolding key_of
without_key key [] = []
without_key key ((k, t) ∷ m) = if key_of k == key then k ∷ without_key key m else without_key key m

abbrev pub delete_all : List (List ℕ) → Dict (List ℕ) ℕ → Dict (List ℕ) ℕ
delete_all [] m = m
delete_all (k ∷ ks) m = delete_all ks (delete k m)

unfoldable pub remove : List ℕ → KStore → KStore × Bool
unfolding without_key
remove key st =
    if has key st.data_map
    then (
      record {
        data_map = delete key st.data_map;
        expiration_time_map =
            delete_all (without_key key st.expiration_time_map) st.expiration_time_map;
        republish_time_map =
            delete_all (without_key key st.expiration_time_map) st.republish_time_map;
      },
      true,
    )
    else (st, false)

-- The list of a key without the value that is found at the index.
unfoldable pub drop_value : List ℕ → List (List ℕ) → Option (List (List ℕ))
drop_value value vs = elim (get_elem? vs (search_strings vs value)) [
  | none ↦ none
  | some v ↦
      if v == value
      then some (take (search_strings vs value) vs ++ drop (search_strings vs value + 1) vs)
      else none
]

-- `RemoveKeyValue`, under the lock either way.
unfoldable pub remove_key_value : List ℕ → List ℕ → KStore → KStore × Bool
unfolding drop_value
remove_key_value key value st = elim (lookup key st.data_map) [
  | none ↦ (st, false)
  | some vs ↦ elim (drop_value value vs) [
    | none ↦ (st, false)
    | some rest ↦ (
      record st {
        data_map = if length vs == 1 then delete key st.data_map else insert key rest st.data_map;
      },
      true,
    )
  ]
]

-- The store without a pair whose time entry is `k`.
unfoldable pub without_pair : List ℕ → List ℕ → List ℕ → KStore → KStore
unfolding remove_key_value
without_pair k key value st = record {
  data_map = (remove_key_value key value st).0.data_map;
  expiration_time_map = delete k (remove_key_value key value st).0.expiration_time_map;
  republish_time_map = delete k (remove_key_value key value st).0.republish_time_map;
}

-- One round of the loop of `ExpireKeys`: `keyS[1]` panics where the string has no separator.
unfoldable pub expire_entry : List ℕ → KStore → Outcome ⊥ KStore
unfolding key_of value_of without_pair
expire_entry k st = or_panic (value_of k) >>= λ value. ok (without_pair k (key_of k) value st)

unfoldable pub expire_loop : ℕ → Dict (List ℕ) ℕ → KStore → Outcome ⊥ KStore
expire_loop now [] st = ok st
expire_loop now ((k, t) ∷ m) st = elim (ltb t now) [
  | false ↦ expire_loop now m st
  | true ↦ expire_entry k st >>= λ st'. expire_loop now m st'
]

unfoldable pub expire_keys : ℕ → KStore → Outcome ⊥ KStore
unfolding expire_loop
expire_keys now st = expire_loop now st.expiration_time_map st

-- The loop of `GetKeyValuesToRepublish`, with `time.Now().Add(timeRep)` as `next`.
unfoldable pub republish_loop :
    ℕ → ℕ → Dict (List ℕ) ℕ → Dict (List ℕ) ℕ → Outcome ⊥ (List (List ℕ × List ℕ) × Dict (List ℕ) ℕ)
unfolding key_of value_of
republish_loop now next [] times = ok ([], times)
republish_loop now next ((k, t) ∷ m) times = elim (ltb t now) [
  | false ↦ republish_loop now next m times
  | true ↦ do
    value ← or_panic (value_of k)
    (found, after) ← republish_loop now next m (insert k next times)
    ok ((key_of k, value) ∷ found, after)
]

unfoldable pub get_key_values_to_republish :
    ℕ → ℕ → KStore → Outcome ⊥ (List (List ℕ × List ℕ) × KStore)
unfolding republish_loop
get_key_values_to_republish now time_rep st = do
  (found, times) ← republish_loop now (now + time_rep) st.republish_time_map st.republish_time_map
  ok (found, record st { republish_time_map = times })
