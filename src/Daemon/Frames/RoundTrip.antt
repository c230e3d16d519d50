-- ===== src/Daemon/Frames/RoundTrip.antt =====
-- Encoded frames parsed back: daemon/ws_pure.cpp.
use crate.Base.{
  Bool, Option, Result, Text, all, ap, append_assoc, arith, false, is_there, leb, length,
  length-append, ltb, not, ok, refl, some, sym, true, ℕ, ◌%◌, ◌&&◌, ◌++◌, ◌+◌, ◌||◌, ◌∙◌, ◌≡◌, ◌≤◌,
}
use crate.Daemon.Frames.{
  Opcode, opcode_byte, opcode_of, Frame, Stop, MaskKey, k_max_frame_payload, masked_payload,
  take_bytes, read_length, read_key, parse_body, parse_frame, short_length, long_length, key_bytes,
  mask_bit, frame_bytes, encode_frame, used_key,
}
use crate.Daemon.Frames.Pieces.{
  take_bytes-append, read_length-encoded, read_key-encoded, opcode_read, opcode_low, short_low,
  mask_read, mask_rest, control_short, length-masked_payload, masked_twice,
}

-- What `parseFrame` gives back for an encoded frame.
abbrev pub frame_of : Opcode → Text → Option MaskKey → Frame
frame_of op payload key = record {
  opcode = op;
  fin = true;
  masked = is_there key;
  payload = payload;
}

-- A parse that passes each check.
parse_body_steps :
    (b0 b1 n ext key_length : ℕ) (s s1 s2 p rest : Text) (op : Opcode) (key : Option MaskKey)
    → opcode_of (b0 % 16) ≡ some op
    → (leb 8 (b0 % 16) && (not (leb 128 b0) || ltb 125 (b1 % 128))) ≡ false
    → read_length (b1 % 128) s ≡ ok (n, (ext, s1))
    → ltb k_max_frame_payload n ≡ false
    → read_key (leb 128 b1) s1 ≡ ok (key, (key_length, s2))
    → take_bytes n s2 ≡ ok (p, rest)
    → parse_body b0 b1 s
      ≡ ok (
        2 + ext + key_length + n,
        record {
          opcode = op;
          fin = leb 128 b0;
          masked = leb 128 b1;
          payload = masked_payload key p;
        },
      )
unfolding parse_body
parse_body_steps b0 b1 n ext key_length s s1 s2 p rest op key e1 e2 e3 e4 e5 e6 =
    rw e1 (rw e2 (rw e3 (rw e4 (rw e5 (rw e6 refl)))))

length-frame_bytes :
    (op : Opcode) (payload : Text) (key : Option MaskKey)
    → length (frame_bytes op payload key)
      ≡ 2 + length (long_length (length payload)) + length (key_bytes key) + length payload
unfolding frame_bytes
length-frame_bytes op payload key = omega (
  arith,
  length-append (long_length (length payload)) (key_bytes key ++ masked_payload key payload),
  length-append (key_bytes key) (masked_payload key payload),
  length-masked_payload key payload,
)

same_result :
    (op : Opcode) (k k' : ℕ) (f m m' : Bool) (p p' : Text)
    → k ≡ k'
    → f ≡ true
    → m ≡ m'
    → p ≡ p'
    → ◌≡◌ {A = Result Stop (ℕ × Frame)}
        (ok (k, record { opcode = op; fin = f; masked = m; payload = p }))
        (ok (k', record { opcode = op; fin = true; masked = m'; payload = p' }))
same_result op k k' f m m' p p' a b c d = rw (a, b, c, d) refl

parse_body-encoded :
    (op : Opcode) (payload rest : Text) (key : Option MaskKey)
    → length payload ≤ k_max_frame_payload
    → (leb 8 (opcode_byte op) && ltb 125 (length payload)) ≡ false
    → all (λ b. ltb b 256) payload ≡ true
    → parse_body
        (128 + opcode_byte op)
        (mask_bit key + short_length (length payload))
        (long_length (length payload) ++ (key_bytes key ++ (masked_payload key payload ++ rest)))
      ≡ ok (length (frame_bytes op payload key), frame_of op payload key)
parse_body-encoded op payload rest key fits control bytes =
    let n = length payload in
    let low = short_low n in
    let first : (128 + opcode_byte op) % 16 ≡ opcode_byte op = omega (arith, opcode_low op) in
    let fin : leb 128 (128 + opcode_byte op) ≡ true = ground arith in
    let checks : (leb 8 ((128 + opcode_byte op) % 16)
          && (not (leb 128 (128 + opcode_byte op))
              || ltb 125 ((mask_bit key + short_length n) % 128)))
        ≡ false =
      rw (first, fin, mask_rest key (short_length n) low) (control_short op n control) in
    let steps =
      parse_body_steps (128 + opcode_byte op) (mask_bit key + short_length n) n
        (length (long_length n)) (length (key_bytes key))
        (long_length n ++ (key_bytes key ++ (masked_payload key payload ++ rest)))
        (key_bytes key ++ (masked_payload key payload ++ rest)) (masked_payload key payload ++ rest)
        (masked_payload key payload) rest op key (ap opcode_of first ∙ opcode_read op) checks
        (ap
            (λ (l : ℕ).
              read_length l
                (long_length n ++ (key_bytes key ++ (masked_payload key payload ++ rest))))
            (mask_rest key (short_length n) low)
          ∙ read_length-encoded n _ fits)
        (ground (arith, fits))
        (ap (λ (b : Bool). read_key b (key_bytes key ++ (masked_payload key payload ++ rest)))
            (mask_read key (short_length n) low)
          ∙ read_key-encoded key _)
        (take_bytes-append (masked_payload key payload) rest n
          (sym (length-masked_payload key payload))) in
    steps
    ∙ same_result op _ _ _ _ _ _ _ (sym (length-frame_bytes op payload key)) fin
        (mask_read key (short_length n) low) (masked_twice key payload bytes)

-- The payload of an encoded frame has bytes, fits, and a control frame's has at most 125.
abbrev pub IsPayload : Opcode → Text → Type 0
IsPayload op payload =
    (length payload ≤ k_max_frame_payload)
    × ((leb 8 (opcode_byte op) && ltb 125 (length payload)) ≡ false)
    × (all (λ b. ltb b 256) payload ≡ true)

behind : (l k m rest : Text) → (l ++ (k ++ m)) ++ rest ≡ l ++ (k ++ (m ++ rest))
behind l k m rest = append_assoc l (k ++ m) rest ∙ ap (◌++◌ l) (append_assoc k m rest)

-- Whatever follows it in the buffer, an encoded frame with a payload that the protocol permits is
-- parsed back, masked or not, and exactly its bytes are consumed.
pub parse_frame-encode_frame :
    (op : Opcode) (payload rest mask_key : Text) (mask : Bool)
    → IsPayload op payload
    → parse_frame (encode_frame op payload mask mask_key ++ rest)
      ≡ ok (
        length (encode_frame op payload mask mask_key),
        frame_of op payload (used_key mask mask_key),
      )
unfolding parse_frame encode_frame
parse_frame-encode_frame op payload rest mask_key mask (fits, control, bytes) =
    let key = used_key mask mask_key in
    let start : parse_frame (frame_bytes op payload key ++ rest)
        ≡ parse_body (128 + opcode_byte op) (mask_bit key + short_length (length payload)) (
            (long_length (length payload) ++ (key_bytes key ++ masked_payload key payload))
            ++ rest) =
      unfold frame_bytes in refl in
    start
    ∙ ap (parse_body (128 + opcode_byte op) (mask_bit key + short_length (length payload)))
        (behind (long_length (length payload)) (key_bytes key) (masked_payload key payload) rest)
    ∙ parse_body-encoded op payload rest key fits control bytes
