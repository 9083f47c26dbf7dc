-- ===== src/Dht/Search.antt =====
-- dht.go: a lookup comes to its end, and what it gives.
use bit_torrent_project.Common.{
  ℕ, zero, suc, ◌+◌, ◌-◌, ◌≤◌, ◌<◌, ◌≡◌, ◌⊎◌, inl, inr, refl, ap, subst, ◌∙◌, List, [], ◌∷◌, none,
  some, Option, String, length, take, ltb, nat_eq, string_eq, bytes_eq_instance, Outcome, ok, err,
  panic, arith, Bool-cases,
}
use bit_torrent_project.Dht.Node.{NetworkNode, Panics, get_distance}
use bit_torrent_project.Dht.Nearest.{IsNearestFirst}
use bit_torrent_project.Dht.Messages.{QueryMessage}
use bit_torrent_project.Dht.Handler.{ExpectedResponse, DhtNode, compact_infos}
use bit_torrent_project.Dht.Table.{get_nearest_nodes}
use bit_torrent_project.Dht.Sending.{LookupError, no_nodes_known, Round, send_queries}
use bit_torrent_project.Dht.Lookup.{
  alpha, Located, End, Step, stopped, further, look_round, look_rounds, look_up,
}
use bit_torrent_project.Dht.Rounds.{Occurs, gather-All, Carried, IsEnd, IsStep, conclude-IsStep}

module _ (transmit : QueryMessage → String → Option (List ℕ)) (address : List ℕ → ℕ → String)
    (time_to_die : ℕ) where
  look_round-IsStep :
      (round : Round) (query_type : String) (id : List ℕ) (n : NetworkNode)
      (rest : List NetworkNode) (dht : DhtNode)
      → IsStep
          (λ m. Occurs m round.events)
          id
          (get_distance n.id id)
          (look_round transmit address time_to_die round query_type id n rest dht).1
  unfolding look_round
  look_round-IsStep round query_type id n rest dht =
      go
        (send_queries transmit address time_to_die round query_type id 0 (take alpha (n ∷ rest)) []
          dht)
        refl
    where
      go :
          (sent : DhtNode × Outcome LookupError (List (Option ExpectedResponse)))
          → send_queries transmit address time_to_die round query_type id 0
              (take alpha (n ∷ rest))
              []
              dht
            ≡ sent
          → IsStep
              (λ m. Occurs m round.events)
              id
              (get_distance n.id id)
              (look_round transmit address time_to_die round query_type id n rest dht).1
      go (asked, panic) e = rw (e, look_round) (λ located h. cc)
      go (asked, err x) e = rw (e, look_round) (λ located h. cc)
      go (asked, ok expected) e =
          rw (e, look_round)
            (elim (Bool-cases (ltb 0 (length expected))) [
              | inl some_sent ↦ rw some_sent (
                  conclude-IsStep _ query_type _ id n rest
                    (gather-All _ (length expected) round.events _ [] tt (λ m o. o)))
              | inr none_sent ↦ rw none_sent (conclude-IsStep _ query_type [] id n rest tt)
            ])

  -- What a lookup that ends has found, by the events of its rounds.
  abbrev pub IsResult : (ℕ → Round) → List ℕ → ℕ → End → Type 0
  IsResult rounds id distance end =
      IsEnd (λ m. (i : ℕ) × Occurs m (rounds i).events) id distance end

  end_weaken :
      (rounds : ℕ → Round) (i : ℕ) (id : List ℕ) (near far : ℕ) (end : End)
      → near ≤ far
      → IsEnd (λ m. Occurs m (rounds i).events) id near end
      → IsResult rounds id far end
  end_weaken rounds i id near far end le h located e = elim (h located e) [
    | inl (values, v, (m, text, o, t, s)) ↦ inl (values, v, (m, text, (i, o), t, s))
    | inr (n, ns, v, c, sorted, d) ↦ inr (n, ns, v, c, sorted, omega arith)
  ]

  IsResult-weaken :
      (rounds : ℕ → Round) (id : List ℕ) (near far : ℕ) (end : End)
      → near ≤ far
      → IsResult rounds id near end
      → IsResult rounds id far end
  IsResult-weaken rounds id near far end le h located e = elim (h located e) [
    | inl values ↦ inl values
    | inr (n, ns, v, c, sorted, d) ↦ inr (n, ns, v, c, sorted, omega arith)
  ]

  -- With more rounds than this distance the loop comes to its end, which is the same end for every
  -- such number.
  abbrev Ends :
      ℕ → ℕ → (ℕ → Round) → String → List ℕ → NetworkNode → List NetworkNode → DhtNode → Type 0
  Ends distance i rounds query_type id n rest dht =
      (after : DhtNode) × (end : End) × ((fuel : ℕ)
        → distance < fuel
        → look_rounds transmit address time_to_die fuel i rounds query_type id n rest dht
          ≡ some (after, end))
      × IsResult rounds id distance end

  round-Ends :
      (distance i : ℕ) (rounds : ℕ → Round) (query_type : String) (id : List ℕ) (n : NetworkNode)
      (rest : List NetworkNode) (dht : DhtNode)
      → get_distance n.id id ≤ distance
      → ((m : NetworkNode) (ms : List NetworkNode) (after : DhtNode)
          → get_distance m.id id < get_distance n.id id
          → Ends (distance - 1) (i + 1) rounds query_type id m ms after)
      → Ends distance i rounds query_type id n rest dht
  unfolding look_rounds
  round-Ends distance i rounds query_type id n rest dht h next =
      go (look_round transmit address time_to_die (rounds i) query_type id n rest dht) refl
    where
      positive : (fuel : ℕ) → distance < fuel → suc (fuel - 1) ≡ fuel
      positive fuel l = omega arith

      go :
          (r : DhtNode × Step)
          → look_round transmit address time_to_die (rounds i) query_type id n rest dht ≡ r
          → Ends distance i rounds query_type id n rest dht
      go (after, stopped end) e =
          let s : IsEnd (λ m. Occurs m (rounds i).events) id (get_distance n.id id) end =
            subst
              (λ (r : DhtNode × Step).
                IsStep (λ m. Occurs m (rounds i).events) id (get_distance n.id id) r.1)
              e (look_round-IsStep (rounds i) query_type id n rest dht) in
          let runs : (fuel : ℕ)
              → distance < fuel
              → look_rounds transmit address time_to_die fuel i rounds query_type id n rest dht
                ≡ some (after, end) =
            λ fuel l.
              subst
                (λ f.
                  look_rounds transmit address time_to_die f i rounds query_type id n rest dht
                  ≡ some (after, end))
                (positive fuel l)
                (rw (ap {B = Step} (λ r. r.1) e, look_rounds)
                  (ap (λ (r : DhtNode × Step). some (r.0, end)) e)) in
          (after, end, runs, end_weaken rounds i id (get_distance n.id id) distance end h s)
      go (after, further m ms) e =
          let nearer : get_distance m.id id < get_distance n.id id =
            subst
              (λ (r : DhtNode × Step).
                IsStep (λ m. Occurs m (rounds i).events) id (get_distance n.id id) r.1)
              e (look_round-IsStep (rounds i) query_type id n rest dht) in
          let (last, end, continues, s) = next m ms after nearer in
          let runs : (fuel : ℕ)
              → distance < fuel
              → look_rounds transmit address time_to_die fuel i rounds query_type id n rest dht
                ≡ some (last, end) =
            λ fuel l.
              subst
                (λ f.
                  look_rounds transmit address time_to_die f i rounds query_type id n rest dht
                  ≡ some (last, end))
                (positive fuel l)
                (rw (ap {B = Step} (λ r. r.1) e, look_rounds)
                  (ap
                      (λ (r : DhtNode × Step).
                        look_rounds transmit address time_to_die (fuel - 1) (i + 1) rounds
                          query_type id m ms r.0)
                      e
                    ∙ continues (fuel - 1) (omega arith))) in
          (last, end, runs, IsResult-weaken rounds id (distance - 1) distance end (omega arith) s)

  one_less : (distance : ℕ) → distance ≡ suc distance - 1
  one_less distance = omega arith

  look_rounds-Ends :
      (distance i : ℕ) (rounds : ℕ → Round) (query_type : String) (id : List ℕ) (n : NetworkNode)
      (rest : List NetworkNode) (dht : DhtNode)
      → get_distance n.id id ≤ distance
      → Ends distance i rounds query_type id n rest dht
  look_rounds-Ends zero i rounds query_type id n rest dht h =
      round-Ends zero i rounds query_type id n rest dht h (λ m ms after l. absurd (omega arith))
  look_rounds-Ends (suc distance) i rounds query_type id n rest dht h =
      round-Ends (suc distance) i rounds query_type id n rest dht h (λ m ms after l.
        subst (λ d. Ends d (i + 1) rounds query_type id m ms after) (one_less distance)
          (look_rounds-Ends distance (i + 1) rounds query_type id m ms after (omega arith)))

  -- What the caller of a lookup gets, if it gets no error: values that a response carried, or the
  -- compact forms of one or more nodes, nearest first.
  abbrev pub Finds : (ℕ → Round) → List ℕ → End → Type 0
  Finds rounds id end =
      (located : Located)
      → end ≡ ok located
      → ((values : List (List ℕ)) × (located.values ≡ some values)
          × Carried (λ m. (i : ℕ) × Occurs m (rounds i).events) values)
        ⊎ ((n : NetworkNode) × (ns : List NetworkNode) × (located.values ≡ none)
            × (located.closest ≡ compact_infos (n ∷ ns))
            × IsNearestFirst id (n ∷ ns))

  result-Finds :
      (rounds : ℕ → Round) (id : List ℕ) (distance : ℕ) (end : End)
      → IsResult rounds id distance end
      → Finds rounds id end
  result-Finds rounds id distance end s located e = elim (s located e) [
    | inl values ↦ inl values
    | inr (n, ns, v, c, sorted, d) ↦ inr (n, ns, v, c, sorted)
  ]

  -- `LookUP` for any id, on any node, whatever the network answers and whatever else happens to the
  -- node meanwhile, comes to its end: there is a number of rounds with which it ends, and with
  -- every larger number it ends with the same node and result. If the result is no error, it is
  -- either the list of values that a response in some round carried, split at "//", or the compact
  -- forms of one or more nodes, nearest to the id first.
  pub look_up-ends :
      (rounds : ℕ → Round) (query_type : String) (id : List ℕ) (dht : DhtNode)
      → (enough : ℕ) × (after : DhtNode) × (end : End) × ((fuel : ℕ)
          → enough < fuel
          → look_up transmit address time_to_die fuel rounds query_type id dht ≡ some (after, end))
        × Finds rounds id end
  unfolding look_up
  look_up-ends rounds query_type id dht = go (get_nearest_nodes alpha id dht.routing_table) refl
    where
      go :
          (o : Panics (List NetworkNode))
          → get_nearest_nodes alpha id dht.routing_table ≡ o
          → (enough : ℕ) × (after : DhtNode) × (end : End) × ((fuel : ℕ)
              → enough < fuel
              → look_up transmit address time_to_die fuel rounds query_type id dht
                ≡ some (after, end))
            × Finds rounds id end
      go panic e = (0, dht, panic, (λ fuel l. rw (e, look_up) refl), λ located h. cc)
      go (err x) e = elim x [ ]
      go (ok []) e = (0, dht, err no_nodes_known, (λ fuel l. rw (e, look_up) refl), λ located h. cc)
      go (ok (n ∷ ns)) e =
          let d = get_distance n.id id in
          let (after, end, runs, s) =
            look_rounds-Ends d 0 rounds query_type id n ns dht (omega arith) in
          (d, after, end, (λ fuel l. rw (e, look_up) (runs fuel l)), result-Finds rounds id d end s)
