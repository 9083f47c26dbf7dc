-- ===== src/Tracker/Scrape.antt =====
-- tacker.go: the Scrape request.
use bit_torrent_project.Common.{
  ℕ, List, [], ◌∷◌, Option, none, some, Outcome, ok, err, panic, bytes_eq_instance,
}
use bit_torrent_project.Common.Dict.{Dict, lookup, insert}
use bit_torrent_project.Tracker.State.{
  TorrentTk, TorrentsPool, TrackerServer, TrackerError, empty_info_hash, Call, crashed, returns,
  with_lock,
}
use bit_torrent_project.Tracker.Queries.{torrent_stats}

pub record File : Type 0 where
  pub incomplete : ℕ
  pub complete : ℕ
  pub downloaded : ℕ

pub record ScraperResponse : Type 0 where
  pub files : Dict (List ℕ) File
  pub failure_reason : Option TrackerError

-- The query is the list of its info hashes.
unfoldable pub parse_scraper_request : List (List ℕ) → Outcome TrackerError (List (List ℕ))
parse_scraper_request [] = err empty_info_hash
parse_scraper_request (ih ∷ ihs) = ok (ih ∷ ihs)

unfoldable pub file_of : TorrentTk → File
file_of ttk = record {
  incomplete = (torrent_stats ttk.peers).1;
  complete = ttk.complete;
  downloaded = ttk.downloaded;
}

unfoldable pub scrape_files : List (List ℕ) → TorrentsPool → Dict (List ℕ) File → Dict (List ℕ) File
scrape_files [] tt files = files
scrape_files (ih ∷ ihs) tt files =
    scrape_files ihs tt
      (elim (lookup ih tt) [ none ↦ files | some ttk ↦ insert ih (file_of ttk) files ])

unfoldable pub scrape : TrackerServer → List (List ℕ) → Call ScraperResponse
scrape tk q = elim (parse_scraper_request q) [
  | err e ↦ returns tk (some (record { files = []; failure_reason = some e })) (some e)
  | panic ↦ crashed
  | ok info_hashes ↦ with_lock tk (
      returns tk
        (some (record { files = scrape_files info_hashes tk.torrents []; failure_reason = none }))
        none)
]
