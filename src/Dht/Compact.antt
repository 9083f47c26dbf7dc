-- ===== src/Dht/Compact.antt =====
-- node.go: the compact form of a node can be read back.
use bit_torrent_project.Common.{
  ℕ, zero, suc, ◌+◌, ◌*◌, ◌/◌, ◌%◌, ◌<◌, ◌≡◌, refl, sym, ap, ◌∙◌, List, [], ◌∷◌, ◌++◌, length, take,
  drop, take-append_self, drop-append_self, length-append, ltb, ok, panic, false, arith,
}
use bit_torrent_project.Dht.Node.{NetworkNode, compact_info, new_node_from_compact_info}

take_front : (xs ys : List ℕ) (n : ℕ) → length xs ≡ n → take n (xs ++ ys) ≡ xs
take_front xs ys n e = ap (λ t. take t (xs ++ ys)) (sym e) ∙ take-append_self xs ys

drop_front : (xs ys : List ℕ) (n : ℕ) → length xs ≡ n → drop n (xs ++ ys) ≡ ys
drop_front xs ys n e = ap (λ t. drop t (xs ++ ys)) (sym e) ∙ drop-append_self xs ys

drop_nil : (n : ℕ) → drop {A = ℕ} n [] ≡ []
drop_nil zero = refl
drop_nil (suc n) = refl

pub drop-append_drop : (m n : ℕ) (xs : List ℕ) → drop (m + n) xs ≡ drop n (drop m xs)
drop-append_drop zero n xs = let e : 0 + n ≡ n = omega arith in ap (λ (t : ℕ). drop t xs) e
drop-append_drop (suc m) n [] = drop_nil (suc m + n) ∙ sym (drop_nil n)
drop-append_drop (suc m) n (x ∷ xs) =
    let e : suc m + n ≡ suc (m + n) = omega arith in
    ap (λ (t : ℕ). drop t (x ∷ xs)) e ∙ drop-append_drop m n xs

drop_two : (xs ys zs : List ℕ) → length xs ≡ 20 → length ys ≡ 16 → drop 36 (xs ++ (ys ++ zs)) ≡ zs
drop_two xs ys zs e f =
    drop-append_drop 20 16 (xs ++ (ys ++ zs))
    ∙ ap (drop 16) (drop_front xs (ys ++ zs) 20 e)
    ∙ drop_front ys zs 16 f

-- A node whose id is twenty bytes, whose IP is in its form of sixteen bytes and whose port fits
-- sixteen bits is the node that its compact form reads as.
pub read-compact_info :
    (n : NetworkNode)
    → length n.id ≡ 20
    → length n.ip ≡ 16
    → n.port < 65536
    → new_node_from_compact_info (compact_info n) ≡ ok n
unfolding new_node_from_compact_info compact_info
read-compact_info n i a p =
    let port_bytes = (n.port / 256 % 256) ∷ (n.port % 256) ∷ [] in
    let long : ltb (length (n.id ++ (n.ip ++ port_bytes))) 36 ≡ false =
      ground (arith, length-append n.id (n.ip ++ port_bytes), length-append n.ip port_bytes) in
    let tail : drop 36 (n.id ++ (n.ip ++ port_bytes)) ≡ port_bytes =
      drop_two n.id n.ip port_bytes i a in
    let same : n.port / 256 % 256 * 256 + n.port % 256 ≡ n.port = omega arith in
    rw (long, tail)
      (rw (take_front n.id (n.ip ++ port_bytes) 20 i, drop_front n.id (n.ip ++ port_bytes) 20 i)
        (rw (take_front n.ip port_bytes 16 a, same) refl))

-- The compact form of a node whose id is twenty bytes and whose IP is in its form of four bytes
-- is not one that `NewNodeFromCompactInfo` can read: it panics.
pub read-compact_info_v4 :
    (n : NetworkNode)
    → length n.id ≡ 20
    → length n.ip ≡ 4
    → new_node_from_compact_info (compact_info n) ≡ panic
unfolding new_node_from_compact_info compact_info
read-compact_info_v4 n i a =
    let port_bytes = (n.port / 256 % 256) ∷ (n.port % 256) ∷ [] in
    ground (arith, length-append n.id (n.ip ++ port_bytes), length-append n.ip port_bytes)
