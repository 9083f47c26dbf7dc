-- ===== src/Program/Session.antt =====
-- fyneUI.go: what holds of the window whatever the user does.
use bit_torrent_project.Common.{
  ℕ, ◌≡◌, ◌≤◌, ◌⊎◌, inl, inr, refl, subst, List, [], length, All, All-append, Bool, true, ◌||◌,
  String, Option, some, ltb, ok, arith, Bool-cases, Option-cases, bytes_eq,
}
use bit_torrent_project.Dht.Node.{Panics}
use bit_torrent_project.Program.Window.{
  local_path, Started, Window, new_window, select_torrent, select_folder, select_file, set_ip,
  set_port, in_range, start_download, press_start,
}

ok_window : {w w' : Window} → ◌≡◌ {A = Panics Window} (ok w) (ok w') → w ≡ w'
ok_window h = cc

module _ (parse_ip : String → Option (List ℕ)) (atoi : String → Option ℕ) where
  -- What the user does with a window. An entry takes a text where it is enabled.
  pub data Action (w : Window) : Window → Type 0 where
    types_ip : (text : String) → w.ip_enabled ≡ true → Action w (record w { ip_entry = text })
    types_port : (text : String) → w.port_enabled ≡ true → Action w (record w { port_entry = text })
    types_folder : (path : List ℕ) → Action w (record w { folder_entry = path })
    types_torrent : (path : List ℕ) → Action w (record w { torrent_entry = path })
    selects_torrent : (windows : Bool) (uri : List ℕ) → Action w (select_torrent windows uri w)
    selects_folder : (windows : Bool) (uri : List ℕ) → Action w (select_folder windows uri w)
    selects_file :
        (windows : Bool) (uri : List ℕ) {w' : Window}
        → select_file windows uri w ≡ ok w'
        → Action w w'
    sets_ip : Action w (set_ip parse_ip atoi w)
    sets_port : Action w (set_port parse_ip atoi w)
    starts : Action w (press_start parse_ip atoi w)

  pub data Session : Window → Type 0 where
    opened : Session new_window
    acts : {w w' : Window} → Session w → Action w w' → Session w'

  -- An IP that can be parsed, and a port in the range that the window allows.
  abbrev pub IsIp : String → Type 0
  IsIp text = (ip : List ℕ) × (parse_ip text ≡ some ip)

  abbrev pub IsPort : String → Type 0
  IsPort text = (p : ℕ) × (atoi text ≡ some p) × (1024 ≤ p) × (p ≤ 65535)

  abbrev pub IsBlind : Started → Type 0
  IsBlind s = (s.torrent_path ≡ []) × (s.download_to ≡ []) × IsIp s.ip

  abbrev pub IsWindow : Window → Type 0
  IsWindow w =
      (w.torrent_path ≡ [])
      × (w.download_to ≡ [])
      × ((w.ip ≡ "") ⊎ IsIp w.ip)
      × ((w.port ≡ "") ⊎ IsPort w.port)
      × All IsBlind w.started
      × All (λ f. f.opened ≡ f.built_from) w.published

  in_range-bounds : (p : ℕ) → in_range parse_ip atoi p ≡ true → (1024 ≤ p) × (p ≤ 65535)
  unfolding in_range
  in_range-bounds p h = ground arith

  set_ip-IsWindow : (w : Window) → IsWindow w → IsWindow (set_ip parse_ip atoi w)
  unfolding set_ip
  set_ip-IsWindow w (t, d, i, p, s, f) = elim (Option-cases (parse_ip w.ip_entry)) [
    | inl bad ↦ rw (bad, set_ip) (t, d, i, p, s, f)
    | inr (ip, good) ↦ rw (good, set_ip) (t, d, inr (ip, good), p, s, f)
  ]

  set_port-IsWindow : (w : Window) → IsWindow w → IsWindow (set_port parse_ip atoi w)
  unfolding set_port
  set_port-IsWindow w (t, d, i, q, s, f) = elim (Option-cases (atoi w.port_entry)) [
    | inl bad ↦ rw (bad, set_port) (t, d, i, q, s, f)
    | inr (p, good) ↦ elim (Bool-cases (in_range parse_ip atoi p)) [
      | inl inside ↦
          rw (good, set_port, inside)
            (
              t,
              d,
              i,
              inr (p, good, (in_range-bounds p inside).0, (in_range-bounds p inside).1),
              s,
              f,
            )
      | inr outside ↦ rw (good, set_port, outside) (t, d, i, q, s, f)
    ]
  ]

  start_download-IsWindow :
      (w : Window) → IsWindow w → IsIp w.ip → IsWindow (start_download parse_ip atoi w)
  unfolding start_download
  start_download-IsWindow w (t, d, i, p, s, f) ip =
      elim (Bool-cases (bytes_eq w.folder_entry [] || bytes_eq w.torrent_entry [])) [
        | inl missing ↦ rw (missing, start_download) (t, d, i, p, s, f)
        | inr given ↦
            rw (given, start_download)
              (t, d, i, p, All-append IsBlind w.started _ s ((t, d, ip), tt), f)
      ]

  press_start-IsWindow : (w : Window) → IsWindow w → IsWindow (press_start parse_ip atoi w)
  unfolding press_start
  press_start-IsWindow w h = elim (Option-cases (parse_ip w.ip)) [
    | inl bad ↦ rw (bad, press_start) h
    | inr (ip, good) ↦ elim (Option-cases (atoi w.port)) [
      | inl no_port ↦ rw (good, press_start, no_port) h
      | inr (p, is_port) ↦ elim (Bool-cases (in_range parse_ip atoi p)) [
        | inl inside ↦
            rw (good, press_start, is_port, inside) (start_download-IsWindow w h (ip, good))
        | inr outside ↦ rw (good, press_start, is_port, outside) h
      ]
    ]
  ]

  select_file-IsWindow :
      (windows : Bool) (uri : List ℕ) (w w' : Window)
      → select_file windows uri w ≡ ok w'
      → IsWindow w
      → IsWindow w'
  unfolding select_file
  select_file-IsWindow windows uri w w' e (t, d, i, p, s, f) =
      elim (Bool-cases (ltb (length (local_path windows uri)) 5)) [
        | inl short ↦ cc (rw short at e)
        | inr long ↦
            let done = rw long at e in
            subst IsWindow (ok_window done)
              (t, d, i, p, s, All-append (λ f. f.opened ≡ f.built_from) w.published _ f (refl, tt))
      ]

  Action-IsWindow : (w w' : Window) → Action w w' → IsWindow w → IsWindow w'
  unfolding select_torrent select_folder
  Action-IsWindow w w' (types_ip text enabled) h = h
  Action-IsWindow w w' (types_port text enabled) h = h
  Action-IsWindow w w' (types_folder path) h = h
  Action-IsWindow w w' (types_torrent path) h = h
  Action-IsWindow w w' (selects_torrent windows uri) h = h
  Action-IsWindow w w' (selects_folder windows uri) h = h
  Action-IsWindow w w' (selects_file windows uri e) h = select_file-IsWindow windows uri w w' e h
  Action-IsWindow w w' sets_ip h = set_ip-IsWindow w h
  Action-IsWindow w w' sets_port h = set_port-IsWindow w h
  Action-IsWindow w w' starts h = press_start-IsWindow w h

  -- Whatever the user does with the window: the IP and the port that it keeps are none or valid, a
  -- port from 1024 to 65535, and every download that it has started has such an IP, but no path of a
  -- torrent and no folder, whatever was entered; and of every file that was chosen to be published
  -- the path that is opened as a torrent is the path of the file itself.
  pub Session-IsWindow : (w : Window) → Session w → IsWindow w
  unfolding new_window
  Session-IsWindow w opened = (refl, refl, inl refl, inl refl, tt, tt)
  Session-IsWindow w (acts {w = before} s a) =
      Action-IsWindow before w a (Session-IsWindow before s)
