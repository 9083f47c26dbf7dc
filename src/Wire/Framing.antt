-- ===== src/Wire/Framing.antt =====
-- message.go and handshake.go: what is written is what is read back.
use mathlib.Core.List.{append_assoc, append-nil}
use bit_torrent_project.Common.{
  ℕ, ◌+◌, ◌-◌, ◌%◌, ◌^◌, ◌<◌, ◌≡◌, refl, List, [], ◌∷◌, ◌++◌, arith, ◌==◌, nat_eq, length,
  length-append, ok, bind-ok, none, some, take_whole, Bool-cases, inl, inr, take-append-drop,
  length-take,
}
use bit_torrent_project.Wire.Words.{
  put_uint32, uint32, read_full, length-put_uint32, uint32-put_uint32, read_full-eq,
}
use bit_torrent_project.Wire.Message.{Message, serialize, deserialize, from_body, after_length}

uint32-header : (v : ℕ) → v < 2 ^ 32 → uint32 (put_uint32 v) ≡ ok v
uint32-header v h = ground (arith, uint32-put_uint32 v [], append-nil (put_uint32 v))

-- One frame read from the front of a stream.
deserialize-frame :
    (id : ℕ) (payload rest : List ℕ)
    → length payload + 1 < 2 ^ 32
    → deserialize (put_uint32 (length payload + 1) ++ ((id ∷ payload) ++ rest))
      ≡ ok (some (record { id = id; payload = payload }), rest)
unfolding deserialize
deserialize-frame id payload rest h = ground (
  arith,
  read_full-eq 4 (put_uint32 (length payload + 1)) ((id ∷ payload) ++ rest)
      (length-put_uint32 (length payload + 1)),
  uint32-header (length payload + 1) h,
  read_full-eq (length payload + 1) (id ∷ payload) rest (omega arith),
)

serialize-frame :
    (m : Message)
    → length m.payload + 5 < 2 ^ 32
    → serialize (some m) ≡ ok (put_uint32 (length m.payload + 1) ++ (m.id ∷ m.payload))
unfolding serialize
serialize-frame m h = ground (arith, take_whole m.payload, count)
  where
    count : (4 + (length m.payload + 1) % 2 ^ 32) % 2 ^ 32 - 5 ≡ length m.payload
    count = omega arith

-- A message whose frame fits a uint32 is written, and is read back whole from any stream that
-- starts with its frame; what follows the frame is left in the stream.
pub deserialize-serialize :
    (m : Message) (rest : List ℕ)
    → length m.payload + 5 < 2 ^ 32
    → (bs : List ℕ) × (serialize (some m) ≡ ok bs)
      × (length bs ≡ length m.payload + 5)
      × (deserialize (bs ++ rest) ≡ ok (some m, rest))
deserialize-serialize m rest h = (
  frame,
  serialize-frame m h,
  omega (
    arith,
    length-append (put_uint32 (length m.payload + 1)) (m.id ∷ m.payload),
    length-put_uint32 (length m.payload + 1),
  ),
  rw (append_assoc header (m.id ∷ m.payload) rest)
      (deserialize-frame m.id m.payload rest (omega arith)),
)
  where
    header : List ℕ
    header = put_uint32 (length m.payload + 1)

    frame : List ℕ
    frame = header ++ (m.id ∷ m.payload)

-- The keep-alive message round-trips too: it is read as `nil`.
pub keep_alive_frame :
    (rest : List ℕ)
    → (bs : List ℕ) × (serialize none ≡ ok bs) × (deserialize (bs ++ rest) ≡ ok (none, rest))
unfolding serialize deserialize uint32
keep_alive_frame rest =
    (0 ∷ 0 ∷ 0 ∷ 0 ∷ [], refl, ground (arith, read_full-eq 4 (0 ∷ 0 ∷ 0 ∷ 0 ∷ []) rest refl))

-- What a successful `Deserialize` took from the stream: nothing but the frame of its message.
pub record Framed (r : List ℕ) (m : Message) (rest : List ℕ) : Type 0 where
  pub header : List ℕ
  pub splits : r ≡ header ++ ((m.id ∷ m.payload) ++ rest)
  pub four : length header ≡ 4
  pub counts : uint32 header ≡ ok (length m.payload + 1)

read_full-ok :
    (n : ℕ) (r xs rest : List ℕ)
    → read_full n r ≡ ok (xs, rest)
    → (r ≡ xs ++ rest) × (length xs ≡ n)
unfolding read_full
read_full-ok n r xs rest e = ground (arith, take-append-drop n r, length-take n r)

from_body-ok : (bs : List ℕ) (m : Message) → from_body bs ≡ ok m → bs ≡ m.id ∷ m.payload
unfolding from_body
from_body-ok [] m e = cc
from_body-ok (b ∷ bs) m e = ground arith

after_length-ok :
    (len : ℕ) (r : List ℕ) (m : Message) (rest : List ℕ)
    → after_length len r ≡ ok (some m, rest)
    → (r ≡ (m.id ∷ m.payload) ++ rest) × (length (m.id ∷ m.payload) ≡ len)
unfolding after_length
after_length-ok len r m rest e = elim (Bool-cases (len == 0)) [
  | inl z ↦ cc (rw z at e)
  | inr nz ↦
      let (p, e1, k1) = bind-ok (read_full len r) _ (rw nz at e) in
      let (m', e2, k2) = bind-ok (from_body p.0) _ k1 in
      ground (arith, read_full-ok len r p.0 p.1 e1, from_body-ok p.0 m' e2)
]

-- Whatever the stream holds, a message that `Deserialize` returns was framed at its front: four
-- bytes that count the id and the payload, then those, and the rest is left in the stream.
pub deserialize-Framed :
    (r : List ℕ) (m : Message) (rest : List ℕ) → deserialize r ≡ ok (some m, rest) → Framed r m rest
unfolding deserialize
deserialize-Framed r m rest e =
    let (p, e1, k1) = bind-ok (read_full 4 r) _ e in
    let (len, e2, k2) = bind-ok (uint32 p.0) _ k1 in
    let (split1, four) = read_full-ok 4 r p.0 p.1 e1 in
    let (split2, count) = after_length-ok len p.1 m rest k2 in
    record { header = p.0; splits = ground arith; four = four; counts = ground arith }
