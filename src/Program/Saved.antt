-- ===== src/Program/Saved.antt =====
-- utils.go and uploader_client.go: what a client serves after it has saved a download.
use bit_torrent_project.Common.{
  ℕ, ◌≡◌, ◌≢◌, inl, inr, refl, sym, ap, ◌∙◌, List, [], ◌∷◌, replicate, All, false, Option, none,
  some, ◌==◌, bytes_eq_instance, bytes_eq_iff, arith, Bool-cases,
}
use bit_torrent_project.Common.Dict.{lookup, has, insert, IsMap, lookup-insert, has-eq_false}
use bit_torrent_project.Peer.Upload.{ClientTorrentFileInfo, no_info, get_client_torrent_file_info}
use bit_torrent_project.Peer.Worker.{PieceResult}
use bit_torrent_project.Program.Info.{
  TorrentFiles, ClientInfo, copy_files, first_index, updated_info,
}

-- Torrents with this info hash stand under it.
abbrev pub AreKeyed : List ℕ → TorrentFiles → Type 0
AreKeyed h files = All (λ (k, v). (h ≡ v.info_hash) → k ≡ h) files

insert-AreKeyed :
    (h k : List ℕ) (v : ClientTorrentFileInfo) (files : TorrentFiles)
    → (h ≡ v.info_hash → k ≡ h)
    → AreKeyed h files
    → AreKeyed h (insert k v files)
insert-AreKeyed h k v [] s a = (s, tt)
insert-AreKeyed h k v ((j, w) ∷ files) s (b, a) = elim (Bool-cases (j == k)) [
  | inl same ↦ rw same (s, a)
  | inr differ ↦ rw differ (b, insert-AreKeyed h k v files s a)
]

copy_files-AreKeyed :
    (h : List ℕ) (files copied : TorrentFiles) (index : Option (List ℕ))
    → AreKeyed h files
    → AreKeyed h copied
    → AreKeyed h (copy_files h files copied index).0
unfolding copy_files
copy_files-AreKeyed h [] copied index a c = c
copy_files-AreKeyed h ((k, v) ∷ files) copied index (s, a) c =
    copy_files-AreKeyed h files (insert k v copied) _ a (insert-AreKeyed h k v copied s c)

abbrev pub or_else :
    Option ClientTorrentFileInfo → Option ClientTorrentFileInfo → Option ClientTorrentFileInfo
or_else none o = o
or_else (some v) o = some v

-- The loop copies every entry of a map.
pub lookup-copy_files :
    (h k : List ℕ) (files copied : TorrentFiles) (index : Option (List ℕ))
    → IsMap files
    → lookup k (copy_files h files copied index).0 ≡ or_else (lookup k files) (lookup k copied)
unfolding copy_files
lookup-copy_files h k [] copied index m = refl
lookup-copy_files h k ((j, v) ∷ files) copied index (once, m) =
    let rest = lookup-copy_files h k files (insert j v copied) _ m in
    let put = lookup-insert j k v copied in
    elim (Bool-cases (j == k)) [
      | inl same ↦
          let missing : lookup k files ≡ none =
            has-eq_false k files (ap (λ x. has x files) (sym ((bytes_eq_iff j k).0 same)) ∙ once) in
          rest ∙ rw (missing, put) (rw same refl)
      | inr differ ↦ rest ∙ rw put (rw differ refl)
    ]

-- The uploader finds an entry that stands under its info hash.
get_info-insert :
    (h : List ℕ) (v : ClientTorrentFileInfo) (files : TorrentFiles)
    → v.info_hash ≡ h
    → AreKeyed h files
    → get_client_torrent_file_info (insert h v files) h ≡ v
unfolding get_client_torrent_file_info
get_info-insert h v [] e a = ground (arith, bytes_eq_iff v.info_hash h)
get_info-insert h v ((j, w) ∷ files) e (s, a) = elim (Bool-cases (j == h)) [
  | inl same ↦ ground (arith, bytes_eq_iff v.info_hash h)
  | inr differ ↦
      ground (arith, bytes_eq_iff w.info_hash h, bytes_eq_iff j h, get_info-insert h v files e a)
]

-- No torrent has the info hash exactly where the loop finds no key.
pub copy_files_index :
    (h : List ℕ) (files copied : TorrentFiles) (index : Option (List ℕ))
    → All (λ (k, v). (h == v.info_hash) ≡ false) files
    → (copy_files h files copied index).1 ≡ index
unfolding copy_files
copy_files_index h [] copied index n = refl
copy_files_index h ((k, v) ∷ files) copied index (differs, n) =
    copy_files_index h files (insert k v copied) _ n ∙ rw differs refl

with_first-AreKeyed :
    (h : List ℕ) (copied : TorrentFiles) (index : Option (List ℕ))
    → h ≢ replicate 20 0
    → AreKeyed h copied
    → AreKeyed h (elim index [ none ↦ insert first_index no_info copied | some k ↦ copied ])
with_first-AreKeyed h copied none nz a =
    insert-AreKeyed h first_index no_info copied (λ e. absurd (nz e)) a
with_first-AreKeyed h copied (some k) nz a = a

module _ (sha1 : List ℕ → List ℕ) (path : List ℕ) (pieces : List PieceResult) (h bitfield : List ℕ)
    (info : ClientInfo) where
  -- What `GetClientTorrentFileInfo` finds after `SaveToInfo`.
  pub updated_info-found :
      AreKeyed h info.torrent_files
      → h ≢ replicate 20 0
      → (v : ClientTorrentFileInfo) × (get_client_torrent_file_info
            (updated_info sha1 path pieces h bitfield info).torrent_files
            h
          ≡ v)
        × (v.path ≡ path)
        × (v.bitfield ≡ bitfield)
        × (All (λ (k, w). (h == w.info_hash) ≡ false) info.torrent_files → v.piece_size ≡ 256)
  unfolding updated_info
  updated_info-found a nz =
      let c = copy_files h info.torrent_files [] none in
      let copied = copy_files-AreKeyed h info.torrent_files [] none a tt in
      (
        _,
        get_info-insert h _ _ refl (with_first-AreKeyed h c.0 c.1 nz copied),
        refl,
        refl,
        λ n. rw (copy_files_index h info.torrent_files [] none n) refl,
      )
