-- ===== src/Rpc/Codec.antt =====
-- crates/node/src/rpc/codec.rs: frames on a byte stream. A byte is a number below 256. serde_json's
-- `to_vec` and `from_slice` are arguments; a writer takes all the bytes, and a reader is what the
-- stream still holds, so errors of the transport are left out.
use mill.Prelude.{
  ◌^◌, ◌/◌, none, some, Option, ◌∷◌, [], List, ℕ, ◌+◌, ◌*◌, ◌%◌, ltb, if◌then◌else◌, string_key,
  nat_key, ◌++◌, length, take, drop,
}

abbrev pub Bytes : Type 0
Bytes = List ℕ

-- 16 MiB
abbrev pub max_frame_size : ℕ
max_frame_size = 16777216

abbrev pub u32_mod : ℕ
u32_mod = 4294967296

pub data WriteResult : Type 0 where
  written : Bytes → WriteResult
  encode_error : WriteResult
  too_large : ℕ → WriteResult

pub data ReadResult (T : Type 0) : Type 0 where
  frame : T → ReadResult T
  clean_eof : ReadResult T
  unexpected_eof : ReadResult T
  too_large : ℕ → ReadResult T
  decode_error : ReadResult T

unfoldable pub to_be_bytes : ℕ → Bytes
to_be_bytes n = n / 16777216 % 256 ∷ n / 65536 % 256 ∷ n / 256 % 256 ∷ n % 256 ∷ []

unfoldable pub from_be_bytes : Bytes → ℕ
from_be_bytes [] = 0
from_be_bytes (b ∷ bs) = b * 256 ^ length bs + from_be_bytes bs

module _ {T : Type 0} where
  unfoldable pub write_frame : (T → Option Bytes) → T → WriteResult
  write_frame to_vec val = elim (to_vec val) [
    | none ↦ encode_error
    | some payload ↦
        let len = length payload % u32_mod in
        if ltb max_frame_size len
        then WriteResult.too_large len
        else written (to_be_bytes len ++ payload)
  ]

  -- After the header.
  unfoldable pub read_payload : (Bytes → Option T) → ℕ → Bytes → ReadResult T × Bytes
  read_payload from_slice len r =
      if ltb max_frame_size len
      then (ReadResult.too_large len, r)
      else if ltb (length r) len
      then (unexpected_eof, [])
      else elim (from_slice (take len r)) [
        | none ↦ (decode_error, drop len r)
        | some val ↦ (frame val, drop len r)
      ]

  unfoldable pub read_frame : (Bytes → Option T) → Bytes → ReadResult T × Bytes
  unfolding from_be_bytes read_payload
  read_frame from_slice (b0 ∷ b1 ∷ b2 ∷ b3 ∷ r) =
      read_payload from_slice (from_be_bytes (b0 ∷ b1 ∷ b2 ∷ b3 ∷ [])) r
  read_frame from_slice _ = (clean_eof, [])
