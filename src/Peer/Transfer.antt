-- ===== src/Peer/Transfer.antt =====
-- uploader_client.go and torrent_peer.go together: a request is answered by the block that it names.
use bit_torrent_project.Common.{
  ℕ, ◌+◌, ◌*◌, ◌^◌, ◌<◌, ◌≤◌, ◌≡◌, refl, ◌∙◌, List, [], ◌∷◌, Option, none, some, length, take, drop,
  length-take, length-drop, ltb, ok, arith, false,
}
use bit_torrent_project.Common.Dict.{Dict}
use bit_torrent_project.Wire.Words.{copy_at}
use bit_torrent_project.Wire.Message.{Message}
use bit_torrent_project.Wire.Payloads.{build_request, parse_request, parse_piece}
use bit_torrent_project.Wire.Exchange.{parse_request-build_request, parse_piece-piece_message}
use bit_torrent_project.Peer.Upload.{
  ClientTorrentFileInfo, get_client_torrent_file_info, block_of, piece_of, handle_request,
}

pub parse_small_request :
    (index begin len : ℕ)
    → index < 2 ^ 32
    → begin < 2 ^ 32
    → len ≤ 16
    → parse_request (build_request index begin len) ≡ ok (index, begin, len)
parse_small_request index begin len hi hb hl =
    parse_request-build_request index begin len ∙ ground arith

module _ (read_file : List ℕ → Option (List ℕ)) where
  pub handle_request-piece_of :
      (info : Dict (List ℕ) ClientTorrentFileInfo) (info_hash file : List ℕ) (index begin len : ℕ)
      → index < 2 ^ 32
      → begin < 2 ^ 32
      → 0 < len
      → len ≤ 16
      → read_file (get_client_torrent_file_info info info_hash).path ≡ some file
      → index * (get_client_torrent_file_info info info_hash).piece_size + begin + len ≤ length file
      → handle_request read_file info info_hash (build_request index begin len)
        ≡ ok (
          piece_of index begin (
                take len (
                  drop
                    (index * (get_client_torrent_file_info info info_hash).piece_size + begin)
                    file))
              ∷ [],
          none,
        )
  unfolding handle_request block_of
  handle_request-piece_of info info_hash file index begin len hi hb hp hl opened within =
      let start = index * (get_client_torrent_file_info info info_hash).piece_size + begin in
      let inside : ltb (length file) (start + len) ≡ false = ground arith in
      rw (parse_small_request index begin len hi hb hl, handle_request)
        (rw (opened, block_of, inside) refl)

  -- A request for 1 to 16 bytes that lie in the file of the torrent, with an index and a begin
  -- below 2 ^ 32, is answered by one message, and nothing is reported. If the block fits the
  -- buffer of the piece, `ParsePiece` takes this message for the index that was asked for and
  -- copies exactly these bytes of the file to the begin of the request.
  pub handle_request-parse_piece :
      (info : Dict (List ℕ) ClientTorrentFileInfo) (info_hash file buf : List ℕ)
      (index begin len : ℕ)
      → index < 2 ^ 32
      → begin < 2 ^ 32
      → 0 < len
      → len ≤ 16
      → begin + len ≤ length buf
      → read_file (get_client_torrent_file_info info info_hash).path ≡ some file
      → index * (get_client_torrent_file_info info info_hash).piece_size + begin + len ≤ length file
      → (m : Message) × (handle_request read_file info info_hash (build_request index begin len)
          ≡ ok (m ∷ [], none))
        × (parse_piece index buf m
            ≡ ok (
              copy_at begin
                  (take len (
                    drop
                      (index * (get_client_torrent_file_info info info_hash).piece_size + begin)
                      file))
                  buf,
              len,
            ))
  unfolding piece_of
  handle_request-parse_piece info info_hash file buf index begin len hi hb hp hl fits opened
        within =
      let start = index * (get_client_torrent_file_info info info_hash).piece_size + begin in
      let block = take len (drop start file) in
      let size : length block ≡ len =
        omega (arith, length-take len (drop start file), length-drop start file) in
      (
        piece_of index begin block,
        handle_request-piece_of info info_hash file index begin len hi hb hp hl opened within,
        parse_piece-piece_message index begin block buf hi hb ∙ ground (arith, size),
      )
