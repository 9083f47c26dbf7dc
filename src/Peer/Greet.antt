-- ===== src/Peer/Greet.antt =====
-- uploader_client.go, downloader_client.go and torrent_peer.go: two clients connect.
use bit_torrent_project.Common.{
  ℕ, ◌+◌, ◌-◌, ◌^◌, ◌<◌, ◌≡◌, refl, sym, ap, ◌∙◌, List, [], ◌++◌, true, false, some, length, take,
  take_whole, replicate, bytes_eq_iff, bytes_eq_instance, nat_eq, ◌==◌, ok, err, ltb, false, arith,
}
use mathlib.Core.List.{append-nil}
use bit_torrent_project.Wire.Words.{timed_out}
use bit_torrent_project.Common.Dict.{Dict}
use bit_torrent_project.Wire.Message.{bitfield, unchoke, deserialize}
use bit_torrent_project.Wire.Framing.{deserialize-serialize}
use bit_torrent_project.Wire.Handshake.{Handshake, protocol, deserialize as read_handshake}
use bit_torrent_project.Wire.Greeting.{deserialize-serialize_handshake}
use bit_torrent_project.Peer.Upload.{
  ClientTorrentFileInfo, get_client_torrent_file_info, PeerConnection, send_unchoke,
}
use bit_torrent_project.Peer.Connect.{
  Client, handshake_time, send_handshake, start_client_tcp, recv_bitfield,
  start_connection_with_peer, bare,
}
use bit_torrent_project.Peer.Serve.{greet, send_bitfield, open_connection}

take_twenty : (n : ℕ) (id : List ℕ) → length id ≡ n → take n id ++ replicate (n - length id) 0 ≡ id
take_twenty n id e =
    let z : n - length id ≡ 0 = omega arith in
    rw z (append-nil (take n id) ∙ ap (λ t. take t id) (sym e) ∙ take_whole id)

-- A handshake with ids of twenty bytes is read as it was sent.
read-send_handshake :
    (info_hash id rest : List ℕ)
    → length info_hash ≡ 20
    → length id ≡ 20
    → read_handshake (send_handshake info_hash id ++ rest)
      ≡ ok (record { pstr = protocol; peer_id = id; info_hash = info_hash }, rest)
unfolding send_handshake
read-send_handshake info_hash id rest h e =
    let hsh : Handshake = record { pstr = protocol; peer_id = id; info_hash = info_hash } in
    deserialize-serialize_handshake hsh rest refl h
    ∙ ap (λ x. ok (record hsh { peer_id = x }, rest)) (take_twenty 20 id e)

-- A client that dials another one, which writes without failing: if the info hash and both peer ids
-- have twenty bytes, the bitfield of the torrent fits a frame, and the handshake arrives within three
-- seconds, then the one that is dialled notes the id and the info hash, and the dialling one, which
-- expects its id, takes the bitfield from what it has written; what is left in the stream is read
-- as UNCHOKE. But the dialling one sends its handshake four seconds after it has connected: if the
-- other one has begun to read when they connect, its read times out, and the two never greet.
pub start_connection-open_connection :
    (info : Dict (List ℕ) ClientTorrentFileInfo) (info_hash my_id peer_id rest : List ℕ)
    (soon connected travels : ℕ)
    → length info_hash ≡ 20
    → length my_id ≡ 20
    → length peer_id ≡ 20
    → length (get_client_torrent_file_info info info_hash).bitfield + 5 < 2 ^ 32
    → soon < 3
    → (pc : PeerConnection) × (bytes after : List ℕ) × (c : Client) × (open_connection info peer_id
          false soon
          (send_handshake info_hash my_id ++ rest)
        ≡ ok (pc, bytes))
      × (pc.peer ≡ my_id)
      × (pc.info_hash ≡ info_hash)
      × (start_connection_with_peer peer_id bytes ≡ ok (c, after))
      × (c.bitfield ≡ (get_client_torrent_file_info info info_hash).bitfield)
      × (deserialize after ≡ ok (some (bare unchoke), []))
      × (open_connection info peer_id false
            (handshake_time connected + travels)
            (send_handshake info_hash my_id ++ rest)
          ≡ err timed_out)
unfolding open_connection start_connection_with_peer greet send_bitfield start_client_tcp
    recv_bitfield send_unchoke handshake_time
start_connection-open_connection info info_hash my_id peer_id rest soon connected travels h m p fits
      in_time =
    let before : ltb soon 3 ≡ true = ground arith in
    let late : ltb (connected + 4 + travels) 3 ≡ false = ground arith in
    let bf = (get_client_torrent_file_info info info_hash).bitfield in
    let (u, wu, _, ru) = deserialize-serialize (bare unchoke) [] (omega arith) in
    let (frame, w, _, r) = deserialize-serialize (record { id = bitfield; payload = bf }) u fits in
    let last : deserialize u ≡ ok (some (bare unchoke), []) =
      ap deserialize (sym (append-nil u)) ∙ ru in
    let heard = read-send_handshake info_hash my_id rest h m in
    let answered = read-send_handshake info_hash peer_id (frame ++ u) h p in
    let same : (peer_id == peer_id) ≡ true = (bytes_eq_iff peer_id peer_id).1 refl in
    let pc : PeerConnection = record {
      choked = true;
      peer_choked = false;
      interested = false;
      peer_interested = false;
      peer = my_id;
      info_hash = info_hash;
    } in
    let c : Client = record {
      choked = true;
      peer_choked = true;
      interested = false;
      peer_interested = false;
      bitfield = bf;
    } in
    (
      pc,
      send_handshake info_hash peer_id ++ (frame ++ u),
      u,
      c,
      rw (before, open_connection) (rw (heard, w, wu) refl),
      refl,
      refl,
      rw (answered, start_client_tcp, same) (rw (r, recv_bitfield) refl),
      refl,
      last,
      rw (late, open_connection) refl,
    )
