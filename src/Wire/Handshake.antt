-- ===== src/Wire/Handshake.antt =====
-- handshake.go.
use bit_torrent_project.Common.{
  ℕ, ◌-◌, ◌%◌, List, [], ◌∷◌, ◌++◌, length, take, replicate, ◌==◌, nat_eq, bytes_eq_instance, codes,
  ok, panic, ◌>>=◌, ◌>>◌, require,
}
use bit_torrent_project.Wire.Words.{Wire, wrong_protocol_size, wrong_protocol, read_full}

pub record Handshake : Type 0 where
  pub pstr : List ℕ
  pub peer_id : List ℕ
  pub info_hash : List ℕ

abbrev pub protocol : List ℕ
protocol = codes "BitTorrent protocol"

-- Twenty bytes are left for the peer id: a longer one is cut, a shorter one is followed by zeros.
unfoldable pub serialize : Handshake → List ℕ
serialize h =
    (length h.pstr % 256)
    ∷ (h.pstr
        ++ (replicate 8 0
            ++ (h.info_hash ++ (take 20 h.peer_id ++ replicate (20 - length h.peer_id) 0))))

-- `pstrLength[0]` of the one byte that was read.
abbrev first_byte : List ℕ → Wire ℕ
first_byte [] = panic
first_byte (b ∷ bs) = ok b

unfoldable pub deserialize : List ℕ → Wire (Handshake × List ℕ)
deserialize r = do
  (pstr_length, r1) ← read_full 1 r
  len ← first_byte pstr_length
  require (19 == len) wrong_protocol_size
  (pstr, r2) ← read_full 19 r1
  require (protocol == pstr) wrong_protocol
  (reserved_bytes, r3) ← read_full 8 r2
  (info_hash, r4) ← read_full 20 r3
  (peer_id, r5) ← read_full 20 r4
  ok (record { pstr = pstr; peer_id = peer_id; info_hash = info_hash }, r5)
