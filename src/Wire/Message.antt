-- ===== src/Wire/Message.antt =====
-- message.go: the framing of messages.
use bit_torrent_project.Common.{
  ℕ, ◌+◌, ◌-◌, ◌%◌, ◌^◌, List, [], ◌∷◌, ◌++◌, ltb, ◌==◌, nat_eq, if◌then◌else◌, length, take,
  replicate, ok, panic, ◌>>=◌, Option, none, some,
}
use bit_torrent_project.Wire.Words.{Wire, put_uint32, uint32, read_full}

abbrev pub keep_alive : ℕ
keep_alive = 0

abbrev pub choke : ℕ
choke = 1

abbrev pub unchoke : ℕ
unchoke = 2

abbrev pub interested : ℕ
interested = 3

abbrev pub not_interested : ℕ
not_interested = 4

abbrev pub have : ℕ
have = 5

abbrev pub bitfield : ℕ
bitfield = 6

abbrev pub piece : ℕ
piece = 7

abbrev pub cancel : ℕ
cancel = 8

abbrev pub request : ℕ
request = 9

pub record Message : Type 0 where
  pub id : ℕ
  pub payload : List ℕ

-- The uint32 arithmetic wraps: on a payload of 2 ^ 32 - 5 bytes or a little more the buffer is too
-- short for its header, and Go panics.
unfoldable pub serialize : Option Message → Wire (List ℕ)
serialize none = ok (replicate 4 0)
serialize (some m) =
    let len = (length m.payload + 1) % 2 ^ 32 in
    let size = (4 + len) % 2 ^ 32 in
    if ltb size 5 then panic else ok (put_uint32 len ++ (m.id ∷ take (size - 5) m.payload))

-- The part of `Deserialize` that follows the body's read: `messageBuf[0]` and `messageBuf[1:]`.
unfoldable pub from_body : List ℕ → Wire Message
from_body [] = panic
from_body (id ∷ payload) = ok (record { id = id; payload = payload })

-- What follows the length: nothing for a keep-alive, else the body.
unfoldable pub after_length : ℕ → List ℕ → Wire (Option Message × List ℕ)
unfolding from_body
after_length len r =
    if len == 0
    then ok (none, r)
    else do (message_buf, r') ← read_full len r; m ← from_body message_buf; ok (some m, r')

unfoldable pub deserialize : List ℕ → Wire (Option Message × List ℕ)
unfolding after_length
deserialize r = do (length_buf, r') ← read_full 4 r; len ← uint32 length_buf; after_length len r'
