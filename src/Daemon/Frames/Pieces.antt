-- ===== src/Daemon/Frames/Pieces.antt =====
-- The pieces of an encoded frame, read one by one: daemon/ws_pure.cpp.
use native.Mathlib.Nat.{pow-suc}
use crate.Base.{
  &&_elim, Bool-cases, Option, Text, [], all, ap, ap₂, arith, drop-append, false, inl, inr,
  is_there, leb, length, length-append, ltb, ltb→lt, none, ok, refl, some, suc, take-append, true,
  zero, ℕ, ◌%◌, ◌&&◌, ◌*◌, ◌++◌, ◌+◌, ◌/◌, ◌<◌, ◌==◌, ◌^◌, ◌∷◌, ◌≡◌, ◌≤◌,
}
use crate.Daemon.Frames.{
  Opcode, opcode_byte, opcode_of, MaskKey, k_max_frame_payload, xor_bits, turn, apply_mask,
  masked_payload, big_endian, len_bytes, take_bytes, read_length, read_key, short_length,
  long_length, key_bytes, mask_bit,
}

xor_twice : (w a b : ℕ) → a < 2 ^ w → xor_bits w (xor_bits w a b) b ≡ a
xor_twice zero a b h = omega arith
xor_twice (suc w) a b h =
    let rest = xor_twice w (a / 2) (b / 2) (omega (arith, h, pow-suc 2 w)) in
    let half : ((a % 2 + b % 2) % 2 + xor_bits w (a / 2) (b / 2) * 2) / 2
        ≡ xor_bits w (a / 2) (b / 2) =
      omega arith in
    rw (half, rest) (omega arith)

apply_mask_twice :
    (k : MaskKey) (s : Text) → all (λ b. ltb b 256) s ≡ true → apply_mask k (apply_mask k s) ≡ s
unfolding apply_mask
apply_mask_twice k [] h = refl
apply_mask_twice k (b ∷ s) h =
    let (small, rest) = &&_elim (ltb b 256) (all (λ b. ltb b 256) s) h in
    ap₂ ◌∷◌ (xor_twice 8 b k.key0 (ltb→lt b 256 small)) (apply_mask_twice (turn k) s rest)

length-apply_mask : (k : MaskKey) (s : Text) → length (apply_mask k s) ≡ length s
unfolding apply_mask
length-apply_mask k [] = refl
length-apply_mask k (b ∷ s) = ap (λ (n : ℕ). suc n) (length-apply_mask (turn k) s)

pub take_bytes-append : (s t : Text) (n : ℕ) → n ≡ length s → take_bytes n (s ++ t) ≡ ok (s, t)
unfolding take_bytes
take_bytes-append s t n e =
    let enough : ltb (length (s ++ t)) (length s) ≡ false = ground (arith, length-append s t) in
    rw e (rw (enough, take-append s t, drop-append s t) refl)

two_bytes : (len : ℕ) → len < 65536 → big_endian 0 (len_bytes 2 len) ≡ len
two_bytes len h = omega arith

eight_bytes : (len : ℕ) → len ≤ k_max_frame_payload → big_endian 0 (len_bytes 8 len) ≡ len
eight_bytes len h = omega arith

pub read_length-encoded :
    (n : ℕ) (t : Text)
    → n ≤ k_max_frame_payload
    → read_length (short_length n) (long_length n ++ t) ≡ ok (n, (length (long_length n), t))
unfolding read_length short_length long_length
read_length-encoded n t h = elim (Bool-cases (leb n 125)) [
  | inl small ↦
      let a : (n == 126) ≡ false = ground (arith, small) in
      let b : (n == 127) ≡ false = ground (arith, small) in rw small (rw (a, b) refl)
  | inr large ↦ elim (Bool-cases (leb n 65535)) [
    | inl medium ↦
        rw (large, medium)
          (rw (take_bytes-append (len_bytes 2 n) t 2 refl)
            (rw (two_bytes n (ground (arith, medium))) refl))
    | inr huge ↦
        let low : leb (2 ^ 63) n ≡ false = ground (arith, h) in
        rw (large, huge)
          (rw (take_bytes-append (len_bytes 8 n) t 8 refl) (rw (eight_bytes n h) (rw low refl)))
  ]
]

pub read_key-encoded :
    (key : Option MaskKey) (t : Text)
    → read_key (is_there key) (key_bytes key ++ t) ≡ ok (key, (length (key_bytes key), t))
unfolding read_key
read_key-encoded none t = refl
read_key-encoded (some k) t = rw (take_bytes-append (key_bytes (some k)) t 4 refl) refl

pub opcode_read : (op : Opcode) → opcode_of (opcode_byte op) ≡ some op
opcode_read Opcode.continuation = refl
opcode_read Opcode.text = refl
opcode_read Opcode.binary = refl
opcode_read Opcode.close = refl
opcode_read Opcode.ping = refl
opcode_read Opcode.pong = refl

pub opcode_low : (op : Opcode) → opcode_byte op < 16
opcode_low Opcode.continuation = omega arith
opcode_low Opcode.text = omega arith
opcode_low Opcode.binary = omega arith
opcode_low Opcode.close = omega arith
opcode_low Opcode.ping = omega arith
opcode_low Opcode.pong = omega arith

pub short_low : (n : ℕ) → short_length n < 128
unfolding short_length
short_low n = ground arith

pub mask_read : (key : Option MaskKey) (n : ℕ) → n < 128 → leb 128 (mask_bit key + n) ≡ is_there key
mask_read none n h = ground (arith, h)
mask_read (some k) n h = ground (arith, h)

pub mask_rest : (key : Option MaskKey) (n : ℕ) → n < 128 → (mask_bit key + n) % 128 ≡ n
mask_rest none n h = omega (arith, h)
mask_rest (some k) n h = omega (arith, h)

pub control_short :
    (op : Opcode) (n : ℕ)
    → (leb 8 (opcode_byte op) && ltb 125 n) ≡ false
    → (leb 8 (opcode_byte op) && ltb 125 (short_length n)) ≡ false
unfolding short_length
control_short op n h = ground (arith, h)

pub length-masked_payload :
    (key : Option MaskKey) (s : Text) → length (masked_payload key s) ≡ length s
length-masked_payload none s = refl
length-masked_payload (some k) s = length-apply_mask k s

pub masked_twice :
    (key : Option MaskKey) (s : Text)
    → all (λ b. ltb b 256) s ≡ true
    → masked_payload key (masked_payload key s) ≡ s
masked_twice none s h = refl
masked_twice (some k) s h = apply_mask_twice k s h
