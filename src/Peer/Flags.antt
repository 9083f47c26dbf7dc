-- ===== src/Peer/Flags.antt =====
-- torrent_peer.go: what the blocks of a piece leave of the client's flags.
use bit_torrent_project.Common.{
  ℕ, ◌≡◌, inl, inr, refl, sym, ap, subst, ◌∙◌, List, [], ◌∷◌, ltb, nat_eq, string_eq,
  bytes_eq_instance, ok, bind-ok, Bool-cases,
}
use bit_torrent_project.Wire.Words.{Wire}
use bit_torrent_project.Wire.Payloads.{parse_piece}
use bit_torrent_project.Wire.Exchange.{piece_message}
use bit_torrent_project.Peer.Download.{Progress, ask, receive, download_loop}
use bit_torrent_project.Peer.Assembly.{arrivals, block_at}

-- The same bitfield, and choked as before.
abbrev HasFlags : Progress → Progress → Type 0
HasFlags p q = (q.bitfield ≡ p.bitfield) × (q.choked ≡ p.choked)

pub ask-HasFlags : (size : ℕ) (p : Progress) → HasFlags p (ask size p)
unfolding ask
ask-HasFlags size p = elim (Bool-cases p.choked) [
  | inl t ↦ rw (t, ask) (refl, refl)
  | inr f ↦ rw (f, ask) (refl, refl)
]

ok_progress : (a b : Progress) → ◌≡◌ {A = Wire Progress} (ok a) (ok b) → a ≡ b
ok_progress a b k = cc

receive-HasFlags :
    (index now begin : ℕ) (peer block : List ℕ) (p q : Progress)
    → receive index peer now (piece_message index begin block) p ≡ ok q
    → HasFlags p q
unfolding receive
receive-HasFlags index now begin peer block p q h =
    let ((buf, n), _, e) =
      bind-ok (parse_piece index p.buf (piece_message index begin block)) _ h in
    (ap Progress.bitfield (sym (ok_progress _ q e)), ap Progress.choked (sym (ok_progress _ q e)))

-- Blocks do not change the peer's bitfield, and do not choke.
pub download_loop-HasFlags :
    (index now size : ℕ) (peer bytes : List ℕ) (blocks : List (ℕ × ℕ)) (p q : Progress)
    → download_loop index peer size (arrivals now index bytes blocks) p ≡ ok q
    → HasFlags p q
unfolding download_loop
download_loop-HasFlags index now size peer bytes [] p q h =
    elim (Bool-cases (ltb p.downloaded size)) [
      | inl t ↦ cc (rw t at h)
      | inr f ↦ subst (HasFlags p) (ok_progress p q (rw f at h)) (refl, refl)
    ]
download_loop-HasFlags index now size peer bytes ((begin, n) ∷ blocks) p q h =
    elim (Bool-cases (ltb p.downloaded size)) [
      | inr f ↦ subst (HasFlags p) (ok_progress p q (rw (f, download_loop) at h)) (refl, refl)
      | inl t ↦
          let (r, e, g) =
            bind-ok
              (receive index peer now (piece_message index begin (block_at bytes begin n))
                (ask size p))
              (λ x. download_loop index peer size (arrivals now index bytes blocks) x)
              (rw (t, download_loop) at h) in
          let last = download_loop-HasFlags index now size peer bytes blocks r q g in
          let block =
            receive-HasFlags index now begin peer (block_at bytes begin n) (ask size p) r e in
          let asked = ask-HasFlags size p in
          (last.0 ∙ block.0 ∙ asked.0, last.1 ∙ block.1 ∙ asked.1)
    ]
