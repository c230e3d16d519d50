-- ===== src/Daemon/Frames.antt =====
-- WebSocket frames: `parseFrame` and `encodeFrame` of daemon/ws_pure.{h,cpp}. The handshake is not
-- modelled.
pub mod Pieces
pub mod RoundTrip
use crate.Base.{
  Bool, Option, Result, Text, [], drop, err, fail_if, false, if◌then◌else◌, leb, length, ltb, none,
  not, ok, some, suc, take, true, zero, ℕ, ◌%◌, ◌&&◌, ◌*◌, ◌++◌, ◌+◌, ◌/◌, ◌==◌, ◌>>=◌, ◌>>◌, ◌^◌,
  ◌||◌, ◌∷◌,
}

pub data Opcode : Type 0 where
  continuation text binary close ping pong : Opcode

abbrev pub opcode_byte : Opcode → ℕ
opcode_byte continuation = 0
opcode_byte text = 1
opcode_byte binary = 2
opcode_byte close = 8
opcode_byte ping = 9
opcode_byte pong = 10

-- The `switch` on the opcode; the other values are reserved.
abbrev pub opcode_of : ℕ → Option Opcode
opcode_of n =
    if n == 0
    then some continuation
    else if n == 1
    then some text
    else if n == 2
    then some binary
    else if n == 8
    then some close
    else if n == 9
    then some ping
    else if n == 10
    then some pong
    else none

pub record Frame : Type 0 where
  pub opcode : Opcode
  pub fin : Bool
  pub masked : Bool
  pub payload : Text

abbrev pub k_max_frame_payload : ℕ
k_max_frame_payload = 1024 * 1024

-- The results 0 and -1 of `parseFrame`.
pub data Stop : Type 0 where
  incomplete protocol_error : Stop

-- `b ^= k` on uint8_t, bit by bit.
abbrev pub xor_bits : ℕ → ℕ → ℕ → ℕ
xor_bits zero a b = 0
xor_bits (suc w) a b = (a % 2 + b % 2) % 2 + xor_bits w (a / 2) (b / 2) * 2

-- The four key bytes by their number, and the key turned by one.
pub record MaskKey : Type 0 where
  pub key0 : ℕ
  pub key1 : ℕ
  pub key2 : ℕ
  pub key3 : ℕ

abbrev pub turn : MaskKey → MaskKey
turn k = record { key0 = k.key1; key1 = k.key2; key2 = k.key3; key3 = k.key0 }

-- `b ^= maskKey[k % 4]` from some k on.
unfoldable pub apply_mask : MaskKey → Text → Text
apply_mask k [] = []
apply_mask k (b ∷ s) = xor_bits 8 b k.key0 ∷ apply_mask (turn k) s

abbrev pub masked_payload : Option MaskKey → Text → Text
masked_payload none s = s
masked_payload (some k) s = apply_mask k s

-- Big-endian bytes: `(len << 8) | byte`, and `(len >> (k * 8)) & 0xff`.
abbrev pub big_endian : ℕ → Text → ℕ
big_endian acc [] = acc
big_endian acc (b ∷ s) = big_endian (acc * 256 + b) s

abbrev pub len_bytes : ℕ → ℕ → Text
len_bytes zero len = []
len_bytes (suc k) len = len / 256 ^ k % 256 ∷ len_bytes k len

-- Bytes that the buffer must have, and what stands behind them.
unfoldable pub take_bytes : ℕ → Text → Result Stop (Text × Text)
take_bytes n s = if ltb (length s) n then err incomplete else ok (take n s, drop n s)

-- The payload length, the number of its bytes, and the rest.
unfoldable pub read_length : ℕ → Text → Result Stop (ℕ × (ℕ × Text))
read_length len s =
    if len == 126
    then (do r ← take_bytes 2 s; ok (big_endian 0 r.0, (2, r.1)))
    else if len == 127
    then (do
      r ← take_bytes 8 s
      fail_if (leb (2 ^ 63) (big_endian 0 r.0)) protocol_error
      ok (big_endian 0 r.0, (8, r.1)))
    else ok (len, (0, s))

abbrev pub key_of : Text → MaskKey
key_of (a ∷ b ∷ c ∷ d ∷ s) = record { key0 = a; key1 = b; key2 = c; key3 = d }
key_of _ = record { key0 = 0; key1 = 0; key2 = 0; key3 = 0 }

unfoldable pub read_key : Bool → Text → Result Stop (Option MaskKey × (ℕ × Text))
read_key false s = ok (none, (0, s))
read_key true s = do r ← take_bytes 4 s; ok (some (key_of r.0), (4, r.1))

abbrev pub or_stop : {A : Type 0} → Stop → Option A → Result Stop A
or_stop e none = err e
or_stop e (some a) = ok a

-- Behind the two bytes of the header: the bytes consumed and the frame.
unfoldable pub parse_body : ℕ → ℕ → Text → Result Stop (ℕ × Frame)
parse_body b0 b1 s = do
  let fin = leb 128 b0
  let masked = leb 128 b1
  op ← or_stop protocol_error (opcode_of (b0 % 16))
  fail_if (leb 8 (b0 % 16) && (not fin || ltb 125 (b1 % 128))) protocol_error
  l ← read_length (b1 % 128) s
  fail_if (ltb k_max_frame_payload l.0) protocol_error
  k ← read_key masked l.1.1
  p ← take_bytes l.0 k.1.1
  let frame : Frame = record {
    opcode = op;
    fin = fin;
    masked = masked;
    payload = masked_payload k.0 p.0;
  }
  ok (2 + l.1.0 + k.1.0 + l.0, frame)

unfoldable pub parse_frame : Text → Result Stop (ℕ × Frame)
parse_frame (b0 ∷ b1 ∷ s) = parse_body b0 b1 s
parse_frame _ = err incomplete

-- The length byte without the mask bit, and the extended length behind it.
unfoldable pub short_length : ℕ → ℕ
short_length len = if leb len 125 then len else if leb len 65535 then 126 else 127

unfoldable pub long_length : ℕ → Text
long_length len =
    if leb len 125 then [] else if leb len 65535 then len_bytes 2 len else len_bytes 8 len

abbrev pub key_bytes : Option MaskKey → Text
key_bytes none = []
key_bytes (some k) = k.key0 ∷ k.key1 ∷ k.key2 ∷ k.key3 ∷ []

abbrev pub mask_bit : Option MaskKey → ℕ
mask_bit none = 0
mask_bit (some k) = 128

-- A key of `encodeFrame`, padded with zeros.
abbrev pub pad_key : Text → MaskKey
pad_key key = key_of (take 4 (key ++ 0 ∷ 0 ∷ 0 ∷ 0 ∷ []))

abbrev pub used_key : Bool → Text → Option MaskKey
used_key false key = none
used_key true key = some (pad_key key)

unfoldable pub frame_bytes : Opcode → Text → Option MaskKey → Text
frame_bytes opcode payload key =
    (128 + opcode_byte opcode)
    ∷ (mask_bit key + short_length (length payload))
    ∷ (long_length (length payload) ++ (key_bytes key ++ masked_payload key payload))

unfoldable pub encode_frame : Opcode → Text → Bool → Text → Text
encode_frame opcode payload mask mask_key = frame_bytes opcode payload (used_key mask mask_key)

unfoldable pub encode_close_frame : ℕ → Text → Text
encode_close_frame code reason =
    encode_frame close (code / 256 % 256 ∷ code % 256 ∷ reason) false []
