-- ===== src/Wire/Greeting.antt =====
-- handshake.go: a handshake that was sent is the one that is received.
use mathlib.Core.List.{append_assoc}
use bit_torrent_project.Common.{
  ℕ, ◌-◌, ◌%◌, ◌≡◌, true, refl, List, [], ◌∷◌, ◌++◌, length, take, replicate, length-append,
  length-take, length-replicate, bytes_eq, ok, arith,
}
use bit_torrent_project.Wire.Words.{read_full-eq}
use bit_torrent_project.Wire.Handshake.{Handshake, protocol, serialize, deserialize}

-- The twenty bytes that stand for a peer id on the wire.
abbrev pub padded : List ℕ → List ℕ
padded peer_id = take 20 peer_id ++ replicate (20 - length peer_id) 0

length-padded : (peer_id : List ℕ) → length (padded peer_id) ≡ 20
length-padded peer_id = omega (
  arith,
  length-append (take 20 peer_id) (replicate (20 - length peer_id) 0),
  length-take 20 peer_id,
  length-replicate {A = ℕ} (20 - length peer_id) 0,
)

-- The fields of a handshake, one after the other, in front of what follows.
read_fields :
    (len : ℕ) (pstr reserved info_hash peer_id rest : List ℕ)
    → len ≡ 19
    → length pstr ≡ 19
    → length reserved ≡ 8
    → length info_hash ≡ 20
    → length peer_id ≡ 20
    → bytes_eq protocol pstr ≡ true
    → deserialize (len ∷ (pstr ++ (reserved ++ (info_hash ++ (peer_id ++ rest)))))
      ≡ ok (record { pstr = pstr; peer_id = peer_id; info_hash = info_hash }, rest)
unfolding deserialize
read_fields len pstr reserved info_hash peer_id rest e0 e1 e2 e3 e4 e5 = ground (
  arith,
  read_full-eq 1 (len ∷ []) (pstr ++ (reserved ++ (info_hash ++ (peer_id ++ rest)))) refl,
  read_full-eq 19 pstr (reserved ++ (info_hash ++ (peer_id ++ rest))) e1,
  read_full-eq 8 reserved (info_hash ++ (peer_id ++ rest)) e2,
  read_full-eq 20 info_hash (peer_id ++ rest) e3,
  read_full-eq 20 peer_id rest e4,
)

-- A handshake for the BitTorrent protocol with an info hash of twenty bytes is read back from the
-- front of the stream, with the peer id cut or filled with zeros to twenty bytes.
pub deserialize-serialize_handshake :
    (h : Handshake) (rest : List ℕ)
    → h.pstr ≡ protocol
    → length h.info_hash ≡ 20
    → deserialize (serialize h ++ rest) ≡ ok (record h { peer_id = padded h.peer_id }, rest)
unfolding serialize
deserialize-serialize_handshake h rest ep ei = simp append_assoc (
    simp append_assoc at (
      read_fields (length h.pstr % 256) h.pstr (replicate 8 0) h.info_hash (padded h.peer_id) rest
        (rw ep) (rw ep) refl ei (length-padded h.peer_id) (rw ep)))
