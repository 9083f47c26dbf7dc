-- ===== src/Wire/Words.antt =====
-- Big-endian 32-bit words (encoding/binary), reads from a stream (io.ReadFull) and copies (copy).
use bit_torrent_project.Common.{
  ℕ, ◌+◌, ◌-◌, ◌*◌, ◌/◌, ◌%◌, ◌^◌, ◌<◌, ◌≤◌, ◌≡◌, refl, ap, List, [], ◌∷◌, ◌++◌, arith, leb,
  if◌then◌else◌, length, take, drop, take-append_self, drop-append_self, All, length-append,
  length-take, length-drop, get_elem?, get_elem?-append, get_elem?-take, get_elem?-drop, ltb, true,
  Outcome, ok, err, panic,
}

abbrev pub IsByte : ℕ → Type 0
IsByte b = b < 256

-- The error cases of message.go and handshake.go; `timed_out` is a read past its deadline.
pub data WireError : Type 0 where
  end_of_stream wrong_id wrong_length payload_too_short wrong_index begin_too_high : WireError
  data_too_long length_too_big wrong_protocol_size wrong_protocol timed_out : WireError

abbrev pub Wire {ℓ} : Type ℓ → Type ℓ
Wire = Outcome WireError

-- `binary.BigEndian.PutUint32` of `uint32(v)`.
unfoldable pub put_uint32 : ℕ → List ℕ
put_uint32 v = (v / 2 ^ 24 % 256) ∷ (v / 2 ^ 16 % 256) ∷ (v / 2 ^ 8 % 256) ∷ (v % 256) ∷ []

-- `binary.BigEndian.Uint32` of the first four bytes; it panics on fewer.
unfoldable pub uint32 : List ℕ → Wire ℕ
uint32 (a ∷ b ∷ c ∷ d ∷ rest) = ok (a * 2 ^ 24 + b * 2 ^ 16 + c * 2 ^ 8 + d)
uint32 _ = panic

-- `io.ReadFull(r, make([]byte, n))` on a stream that holds the given bytes and then ends: the
-- bytes read with the rest of the stream, or the error EOF or ErrUnexpectedEOF.
unfoldable pub read_full : ℕ → List ℕ → Wire (List ℕ × List ℕ)
read_full n r = if leb n (length r) then ok (take n r, drop n r) else err end_of_stream

-- `copy(buf[begin:], bytes)`, which writes as many bytes as there is room for.
unfoldable pub copy_at : ℕ → List ℕ → List ℕ → List ℕ
copy_at begin bytes buf =
    take begin buf ++ (take (length buf - begin) bytes ++ drop (begin + length bytes) buf)

pub length-put_uint32 : (v : ℕ) → length (put_uint32 v) ≡ 4
unfolding put_uint32
length-put_uint32 v = refl

pub put_uint32-IsByte : (v : ℕ) → All IsByte (put_uint32 v)
unfolding put_uint32
put_uint32-IsByte v = omega arith

pub uint32-put_uint32 : (v : ℕ) (rest : List ℕ) → uint32 (put_uint32 v ++ rest) ≡ ok (v % 2 ^ 32)
unfolding put_uint32 uint32
uint32-put_uint32 v rest = ap ok (omega arith)

-- Four bytes are the encoding of the word that they stand for.
pub put_uint32-uint32 :
    (a b c d : ℕ) (rest : List ℕ)
    → IsByte a
    → IsByte b
    → IsByte c
    → IsByte d
    → put_uint32 (a * 2 ^ 24 + b * 2 ^ 16 + c * 2 ^ 8 + d) ++ rest ≡ a ∷ b ∷ c ∷ d ∷ rest
unfolding put_uint32
put_uint32-uint32 a b c d rest ha hb hc hd = ground arith

leb_grow : (n m : ℕ) → leb n (n + m) ≡ true
leb_grow n m = ground arith

pub read_full-append : (xs rest : List ℕ) → read_full (length xs) (xs ++ rest) ≡ ok (xs, rest)
unfolding read_full
read_full-append xs rest = rw (
  length-append xs rest,
  leb_grow (length xs) (length rest),
  take-append_self xs rest,
  drop-append_self xs rest,
)

-- The same with the count given by an equation.
pub read_full-eq :
    (n : ℕ) (xs rest : List ℕ) → length xs ≡ n → read_full n (xs ++ rest) ≡ ok (xs, rest)
read_full-eq n xs rest h = rw (← h) (read_full-append xs rest)

-- What a copy that fits leaves at each index: the bytes written, and the old ones around them.
pub get_elem?-copy_at :
    (begin : ℕ) (bytes buf : List ℕ) (i : ℕ)
    → begin + length bytes ≤ length buf
    → get_elem? (copy_at begin bytes buf) i ≡ (
        if ltb i begin
        then get_elem? buf i
        else if ltb i (begin + length bytes)
        then get_elem? bytes (i - begin)
        else get_elem? buf i)
unfolding copy_at
get_elem?-copy_at begin bytes buf i h = ground (
  arith,
  length-take begin buf,
  length-take (length buf - begin) bytes,
  get_elem?-append (take begin buf)
      (take (length buf - begin) bytes ++ drop (begin + length bytes) buf) i,
  get_elem?-append (take (length buf - begin) bytes) (drop (begin + length bytes) buf)
      (i - length (take begin buf)),
  get_elem?-take begin buf i,
  get_elem?-take (length buf - begin) bytes (i - length (take begin buf)),
  get_elem?-drop (begin + length bytes) buf
      (i - length (take begin buf) - length (take (length buf - begin) bytes)),
)

pub length-copy_at :
    (begin : ℕ) (bytes buf : List ℕ)
    → begin + length bytes ≤ length buf
    → length (copy_at begin bytes buf) ≡ length buf
unfolding copy_at
length-copy_at begin bytes buf h = omega (
  arith,
  length-append (take begin buf)
      (take (length buf - begin) bytes ++ drop (begin + length bytes) buf),
  length-append (take (length buf - begin) bytes) (drop (begin + length bytes) buf),
  length-take begin buf,
  length-take (length buf - begin) bytes,
  length-drop (begin + length bytes) buf,
)
