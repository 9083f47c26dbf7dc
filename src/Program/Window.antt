-- ===== src/Program/Window.antt =====
-- fyneUI.go: the settings behind the window, and what its buttons do with them. Paths are the bytes
-- of their texts.
use bit_torrent_project.Common.{
  ℕ, ◌-◌, List, [], ◌∷◌, ◌++◌, length, take, drop, Bool, true, false, not, ◌||◌, String, Option,
  none, some, codes, ltb, ◌==◌, nat_eq, bytes_eq, bytes_eq_instance, string_eq, ok, panic,
  if◌then◌else◌,
}
use bit_torrent_project.Dht.Node.{Panics}

-- The arguments of a call of `utils.Download`, which takes no port.
pub record Started : Type 0 where
  pub torrent_path : List ℕ
  pub download_to : List ℕ
  pub ip : String

-- A file that is chosen to be published: the path that its torrent is built from and written to, and
-- the path that `utils.Publish` opens.
pub record Published : Type 0 where
  pub built_from : List ℕ
  pub written_to : List ℕ
  pub opened : List ℕ

-- The variables of `main`, the texts of the entries, the entries that are enabled, and the calls
-- that were made so far.
pub record Window : Type 0 where
  pub torrent_path : List ℕ
  pub download_to : List ℕ
  pub ip : String
  pub port : String
  pub ip_entry : String
  pub port_entry : String
  pub ip_enabled : Bool
  pub port_enabled : Bool
  pub folder_entry : List ℕ
  pub torrent_entry : List ℕ
  pub started : List Started
  pub published : List Published

unfoldable pub new_window : Window
new_window = record {
  torrent_path = [];
  download_to = [];
  ip = "";
  port = "";
  ip_entry = "";
  port_entry = "";
  ip_enabled = true;
  port_enabled = true;
  folder_entry = [];
  torrent_entry = [];
  started = [];
  published = [];
}

-- `strings.ReplaceAll(path, "/", "\\")`.
unfoldable pub backslashes : List ℕ → List ℕ
backslashes [] = []
backslashes (c ∷ cs) = (if c == 47 then 92 else c) ∷ backslashes cs

-- The path that a dialog gives, on Windows and elsewhere.
unfoldable pub local_path : Bool → List ℕ → List ℕ
unfolding backslashes
local_path windows uri =
    let path = if bytes_eq (take 7 uri) (codes "file://") then drop 7 uri else uri in
    if windows then backslashes path else path

-- The button of the folder dialog and those of the torrent dialogs fill in an entry.
unfoldable pub select_torrent : Bool → List ℕ → Window → Window
unfolding local_path
select_torrent windows uri w = record w { torrent_entry = local_path windows uri }

unfoldable pub select_folder : Bool → List ℕ → Window → Window
unfolding local_path
select_folder windows uri w = record w { folder_entry = local_path windows uri }

-- The file to publish: the torrent is written beside it, under its path without five characters.
unfoldable pub select_file : Bool → List ℕ → Window → Panics Window
unfolding local_path
select_file windows uri w =
    let path = local_path windows uri in
    if ltb (length path) 5
    then panic
    else ok (record w {
      published =
          w.published
          ++ record {
            built_from = path;
            written_to = take (length path - 5) path ++ codes ".torrent";
            opened = path;
          }
            ∷ [];
    })

-- `net.ParseIP`, and `strconv.Atoi` with `none` for an error and for a negative number, which both
-- functions below treat alike but for the text that they show.
module _ (parse_ip : String → Option (List ℕ)) (atoi : String → Option ℕ) where
  unfoldable pub set_ip : Window → Window
  set_ip w = elim (parse_ip w.ip_entry) [
    | none ↦ w
    | some ip ↦ record w { ip_enabled = false; ip = w.ip_entry }
  ]

  unfoldable pub in_range : ℕ → Bool
  in_range p = not (ltb p 1024 || ltb 65535 p)

  unfoldable pub set_port : Window → Window
  unfolding in_range
  set_port w = elim (atoi w.port_entry) [
    | none ↦ w
    | some p ↦ if in_range p then record w { port_enabled = false; port = w.port_entry } else w
  ]

  -- "Start", behind the tests of the IP and of the port.
  unfoldable pub start_download : Window → Window
  start_download w =
      if bytes_eq w.folder_entry [] || bytes_eq w.torrent_entry [] then w else record w {
        started =
            w.started
            ++ record { torrent_path = w.torrent_path; download_to = w.download_to; ip = w.ip }
              ∷ [];
      }

  unfoldable pub press_start : Window → Window
  unfolding start_download in_range
  press_start w = elim (parse_ip w.ip) [
    | none ↦ record w { ip_enabled = true }
    | some ip ↦ elim (atoi w.port) [
      | none ↦ record w { port_enabled = true }
      | some p ↦ if in_range p then start_download w else record w { port_enabled = true }
    ]
  ]
