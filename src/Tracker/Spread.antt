-- ===== src/Tracker/Spread.antt =====
-- tacker.go: a publication that a tracker passes on to its backup trackers.
use bit_torrent_project.Common.{
  ℕ, ◌≡◌, refl, sym, ap, ◌∙◌, List, [], ◌∷◌, Bool, true, false, String, Option, none, some, length,
  ◌==◌, nat_eq, bytes_eq_instance, bytes_eq_iff, string_eq, eq_self, if◌then◌else◌, ok, arith,
  Option-cases, Bool-cases, inl, inr,
}
use bit_torrent_project.Common.Dict.{Dict, lookup, has, insert, lookup-insert, lookup-insert_self}
use bit_torrent_project.Tracker.State.{
  Net, PeersPool, TrackersPool, TrackerServer, returns, with_lock_free, already_exist_p,
}
use bit_torrent_project.Tracker.Publish.{
  PublishQuery, PublishResponse, seeder, check_publish, publish_torrent, publish, re_publish,
  re_publish_checked, not_blank, addresses,
}
use bit_torrent_project.Tracker.Network.{re_publish_query, after_call, re_publish_all}
use bit_torrent_project.Tracker.Registry.{targets-eq}
use bit_torrent_project.Tracker.Announce.{announce}
use bit_torrent_project.Tracker.Client.{
  client_port, gives, publish_query, announce_query, request_peers,
}
use bit_torrent_project.Tracker.Meeting.{
  single, with_single, accepted, publish-new, request_peers-single,
}

some_same : (x y : TrackerServer) → ◌≡◌ {A = Option TrackerServer} (some x) (some y) → x ≡ y
some_same x y h = cc

abbrev pub named : String → List String → Bool
named b [] = false
named b (a ∷ as') = if a == b then true else named b as'

named-not_blank :
    (b : String) (bks : TrackersPool)
    → (b == "") ≡ false
    → has b bks ≡ true
    → named b (not_blank (addresses bks)) ≡ true
named-not_blank b [] n h = cc
named-not_blank b ((a, bk) ∷ bks) n h = ground (
  arith,
  named-not_blank b bks,
  string_eq.test_iff a b,
  string_eq.test_iff a "",
  string_eq.test_iff b "",
)

module _ (net : Net) (key info_hash ip ip' : List ℕ) (id : String) where
  abbrev query : PublishQuery
  query = re_publish_query net key info_hash id ip client_port

  -- A tracker that can take the publication, and one that has taken it.
  pub record IsReady (tk : TrackerServer) : Type 0 where
    pub unlocked : tk.locked ≡ false
    pub keyed : key ≡ tk.red_key
    pub new : lookup info_hash tk.torrents ≡ none

  pub record HasTaken (tk : TrackerServer) : Type 0 where
    pub unlocked : tk.locked ≡ false
    pub keyed : key ≡ tk.red_key
    pub stored : lookup info_hash tk.torrents ≡ some (single info_hash id ip')

  module _ (h : length info_hash ≡ 20) (named_id : (id == "") ≡ false)
      (reads : net.parse_ip (net.ip_string ip) ≡ some ip') where
    query-check : check_publish net query ≡ ok ip'
    unfolding check_publish re_publish_query
    query-check = rw (h, named_id, reads) refl

    re_publish-new :
        (tk : TrackerServer) → IsReady tk → HasTaken (after_call tk (re_publish net tk query))
    unfolding re_publish re_publish_checked publish_torrent re_publish_query
    re_publish-new tk r =
        let same : (key == tk.red_key) ≡ true = (bytes_eq_iff key tk.red_key).1 r.keyed in
        let run : re_publish net tk query
            ≡ returns (with_single info_hash id ip' tk)
                (some (record { status = 1; republished = [] })) none =
          rw (query-check, re_publish)
            (with_lock_free tk _ r.unlocked
              ∙ rw (same, re_publish_checked, r.new, publish_torrent) refl) in
        rw run (record {
          unlocked = r.unlocked;
          keyed = r.keyed;
          stored = lookup-insert_self info_hash (single info_hash id ip') tk.torrents;
        })

    re_publish-taken :
        (tk : TrackerServer) → HasTaken tk → after_call tk (re_publish net tk query) ≡ tk
    unfolding re_publish re_publish_checked publish_torrent re_publish_query
    re_publish-taken tk t =
        let same : (key == tk.red_key) ≡ true = (bytes_eq_iff key tk.red_key).1 t.keyed in
        let run : re_publish net tk query
            ≡ returns tk (some (record { status = already_exist_p; republished = [] })) none =
          rw (query-check, re_publish)
            (with_lock_free tk _ t.unlocked
              ∙ rw (same, re_publish_checked, t.stored, publish_torrent, eq_self id) refl) in
        rw run refl

    lookup-re_publish_all :
        (b : String) (tk : TrackerServer) (addrs : List String)
        (network : Dict String TrackerServer)
        → lookup b network ≡ some tk
        → HasTaken tk
        → lookup b (re_publish_all net query addrs network) ≡ some tk
    unfolding re_publish_all
    lookup-re_publish_all b tk [] network e t = e
    lookup-re_publish_all b tk (addr ∷ addrs) network e t =
        elim (Option-cases (lookup addr network)) [
          | inl missing ↦
              rw (missing, re_publish_all) (lookup-re_publish_all b tk addrs network e t)
          | inr (other, found) ↦
              let after = after_call other (re_publish net other query) in
              let put = lookup-insert addr b after network in
              let still : lookup b (insert addr after network) ≡ some tk =
                elim (Bool-cases (addr == b)) [
                  | inl same ↦
                      let b_is : addr ≡ b = (string_eq.test_iff addr b).0 same in
                      let one : other ≡ tk =
                        some_same other tk (sym found ∙ ap (λ x. lookup x network) b_is ∙ e) in
                      put ∙ rw same (ap some (rw one (re_publish-taken tk t)))
                  | inr differ ↦ put ∙ rw differ e
                ] in
              rw (found, re_publish_all)
                (lookup-re_publish_all b tk addrs (insert addr after network) still t)
        ]

    re_publish_all-HasTaken :
        (b : String) (tk : TrackerServer) (addrs : List String)
        (network : Dict String TrackerServer)
        → named b addrs ≡ true
        → lookup b network ≡ some tk
        → IsReady tk
        → (tk' : TrackerServer) × (lookup b (re_publish_all net query addrs network) ≡ some tk')
          × HasTaken tk'
    unfolding re_publish_all
    re_publish_all-HasTaken b tk [] network n e r = cc
    re_publish_all-HasTaken b tk (addr ∷ addrs) network n e r = elim (Bool-cases (addr == b)) [
      | inl same ↦
          let b_is : addr ≡ b = (string_eq.test_iff addr b).0 same in
          let found : lookup addr network ≡ some tk = ap (λ x. lookup x network) b_is ∙ e in
          let after = after_call tk (re_publish net tk query) in
          let taken = re_publish-new tk r in
          let put : lookup b (insert addr after network) ≡ some after =
            lookup-insert addr b after network ∙ rw same refl in
          (
            after,
            rw (found, re_publish_all)
                (lookup-re_publish_all b after addrs (insert addr after network) put taken),
            taken,
          )
      | inr differ ↦
          let rest : named b addrs ≡ true = rw differ at n in
          elim (Option-cases (lookup addr network)) [
            | inl missing ↦
                rw (missing, re_publish_all) (re_publish_all-HasTaken b tk addrs network rest e r)
            | inr (other, found) ↦
                let after = after_call other (re_publish net other query) in
                let put : lookup b (insert addr after network) ≡ some tk =
                  lookup-insert addr b after network ∙ rw differ e in
                rw (found, re_publish_all)
                  (re_publish_all-HasTaken b tk addrs (insert addr after network) rest put r)
          ]
    ]

-- A torrent with an info hash of twenty bytes that an unlocked tracker does not know is published
-- there by a client with a name, and one of its backup trackers, under an address that is not
-- blank, is unlocked, has the same key, does not know the torrent, and reads the text of the
-- publisher's IP back as an IP. Then a RePublish request goes to this address, and after requests
-- have arrived in the network, in whatever order and with this one among them, a client with
-- another name that asks this tracker is given exactly the publisher's address, if the second loop
-- over a pool of one peer meets this peer.
pub publish-re_publish_all :
    (net : Net) (again : PeersPool → PeersPool) (a tk : TrackerServer)
    (network : Dict String TrackerServer) (info_hash ip ip' ip2 : List ℕ)
    (b id id2 text text2 : String) (arrivals : List String)
    → a.locked ≡ false
    → length info_hash ≡ 20
    → (id == "") ≡ false
    → (id2 == "") ≡ false
    → (id == id2) ≡ false
    → net.parse_ip text ≡ some ip
    → net.parse_ip (net.ip_string ip) ≡ some ip'
    → net.parse_ip text2 ≡ some ip2
    → lookup info_hash a.torrents ≡ none
    → has b a.backup_trackers ≡ true
    → (b == "") ≡ false
    → lookup b network ≡ some tk
    → IsReady net a.red_key info_hash ip ip' id tk
    → named b arrivals ≡ true
    → again ((id, seeder id client_port ip') ∷ []) ≡ (id, seeder id client_port ip') ∷ []
    → (a' tk' : TrackerServer) × (r : PublishResponse) × (publish net a
          (publish_query info_hash id text)
        ≡ returns a' (some r) none)
      × (named b r.republished ≡ true)
      × (lookup b (
            re_publish_all net
              (re_publish_query net a'.red_key info_hash id ip client_port)
              arrivals
              network)
          ≡ some tk')
      × (request_peers (announce net again tk' (announce_query info_hash text2 id2))
          ≡ gives ((id, net.addr_string ip' client_port) ∷ []))
publish-re_publish_all net again a tk network info_hash ip ip' ip2 b id id2 text text2 arrivals l h
      n n2 other p reads p2 new known nonblank e r arrives order =
    let a' = with_single info_hash id ip a in
    let target : named b (accepted a).republished ≡ true =
      ap (named b) (targets-eq a.backup_trackers)
      ∙ named-not_blank b a.backup_trackers nonblank known in
    let (tk', found, taken) =
      re_publish_all-HasTaken net a.red_key info_hash ip ip' id h n reads b tk arrivals network
        arrives e r in
    (
      a',
      tk',
      accepted a,
      publish-new net a info_hash ip id text l h n p new,
      target,
      found,
      request_peers-single net again tk' info_hash ip' ip2 id id2 text2 taken.unlocked h n2 other p2
          taken.stored order,
    )
