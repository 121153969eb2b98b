-- ===== src/Rpc/Framing.antt =====
-- About crates/node/src/rpc/codec.rs: what is read of a stream that was written.
use mill.Prelude.{
  All, inr, inl, Option-cases, ◌≤◌, ◌<◌, ap, arith, ◌∙◌, refl, none, some, ◌≡◌, Option, ◌∷◌, [],
  List, ℕ, zero, suc, ◌+◌, ◌%◌, option_map, string_key, nat_key, map, ◌++◌, length, length-append,
  take, drop,
}
use mill.Rpc.Codec.{
  encode_error, clean_eof, frame, written, clean_eof, WriteResult, ReadResult, frame, written,
  Bytes, max_frame_size, u32_mod, to_be_bytes, from_be_bytes, write_frame, read_frame, read_payload,
}

take-append : (xs ys : Bytes) → take (length xs) (xs ++ ys) ≡ xs
take-append [] ys = refl
take-append (x ∷ xs) ys = ap (λ l. x ∷ l) (take-append xs ys)

drop-append : (xs ys : Bytes) → drop (length xs) (xs ++ ys) ≡ ys
drop-append [] ys = refl
drop-append (x ∷ xs) ys = drop-append xs ys

from_be_bytes-to_be_bytes : (n : ℕ) → n < u32_mod → from_be_bytes (to_be_bytes n) ≡ n
unfolding from_be_bytes to_be_bytes
from_be_bytes-to_be_bytes n h = omega arith

module _ {T : Type 0} (to_vec : T → Option Bytes) (from_slice : Bytes → Option T)
    (parses : (v : T) (p : Bytes) → to_vec v ≡ some p → from_slice p ≡ some v) where
  read_payload_exact :
      (p rest : Bytes)
      → length p ≤ max_frame_size
      → (v : T) → from_slice p ≡ some v
      → read_payload from_slice (length p) (p ++ rest) ≡ (frame v, rest)
  unfolding read_payload
  read_payload_exact p rest h v e =
      ground (arith, take-append p rest, drop-append p rest, length-append p rest, e)

  written_exact :
      (v : T) (p b : Bytes)
      → to_vec v ≡ some p
      → length p < u32_mod
      → write_frame to_vec v ≡ written b
      → (length p ≤ max_frame_size) × (b ≡ to_be_bytes (length p) ++ p)
  unfolding write_frame
  written_exact v p b e small w = ground (arith, e, w)

  read_written :
      (v : T) (p rest : Bytes)
      → from_slice p ≡ some v
      → length p ≤ max_frame_size
      → read_frame from_slice (to_be_bytes (length p) ++ p ++ rest) ≡ (frame v, rest)
  unfolding read_frame to_be_bytes
  read_written v p rest e h =
      let n = from_be_bytes-to_be_bytes (length p) (omega (arith, h)) in
      ap (λ k. read_payload from_slice k (p ++ rest)) n ∙ read_payload_exact p rest h v e

  -- A frame that is written comes back from the stream, with what follows it left there, if its
  -- payload is shorter than 2 ^ 32 bytes.
  pub read_frame-write_frame :
      (v : T) (p b rest : Bytes)
      → to_vec v ≡ some p
      → length p < u32_mod
      → write_frame to_vec v ≡ written b
      → read_frame from_slice (b ++ rest) ≡ (frame v, rest)
  read_frame-write_frame v p b rest e small w =
      let (h, eq) = written_exact v p b e small w in
      ap (λ x. read_frame from_slice (x ++ rest)) eq ∙ read_written v p rest (parses v p e) h

  -- What a writer puts on the stream, message after message, if it writes them all.
  unfoldable pub write_frames : List T → Option Bytes
  write_frames [] = some []
  write_frames (v ∷ vs) = elim (write_frame to_vec v) [
    | written b ↦ option_map (λ bs. b ++ bs) (write_frames vs)
    | encode_error ↦ none
    | WriteResult.too_large n ↦ none
  ]

  unfoldable pub read_frames : ℕ → Bytes → List (ReadResult T)
  read_frames zero s = []
  read_frames (suc n) s = let (x, rest) = read_frame from_slice s in x ∷ read_frames n rest

  abbrev pub IsShort : T → Type 0
  IsShort v = (p : Bytes) → to_vec v ≡ some p → length p < u32_mod

  write_one :
      (v : T) (vs : List T) (s : Bytes)
      → write_frames (v ∷ vs) ≡ some s
      → (p : Bytes) × (b : Bytes) × (bs : Bytes) × (to_vec v ≡ some p)
        × (write_frame to_vec v ≡ written b)
        × (write_frames vs ≡ some bs)
        × (s ≡ b ++ bs)
  unfolding write_frames write_frame
  write_one v vs s h = elim (Option-cases (to_vec v)) [
    | inl e ↦ ground (arith, e, h)
    | inr (p, e) ↦ elim (Option-cases (write_frames vs)) [
      | inl g ↦ ground (arith, e, g, h)
      | inr (bs, g) ↦ (
        p,
        to_be_bytes (length p % u32_mod) ++ p,
        bs,
        e,
        ground (arith, e, g, h),
        g,
        ground (arith, e, g, h),
      )
    ]
  ]

  -- A stream of messages is read back message by message, in order, and ends in a clean end of
  -- file, if the payload of each of these messages is shorter than 2 ^ 32 bytes and a payload parses
  -- to its message.
  pub read_frames-write_frames :
      (vs : List T) (s : Bytes)
      → All IsShort vs
      → write_frames vs ≡ some s
      → read_frames (suc (length vs)) s ≡ map frame vs ++ (clean_eof ∷ [])
  unfolding write_frames read_frames read_frame
  read_frames-write_frames [] s short h = ground (arith, h)
  read_frames-write_frames (v ∷ vs) s short h =
      let (p, b, bs, e, w, g, eq) = write_one v vs s h in
      ap (read_frames (suc (suc (length vs)))) eq
      ∙ ap (λ r. r.0 ∷ read_frames (suc (length vs)) r.1)
          (read_frame-write_frame v p b bs e (short.0 p e) w)
      ∙ ap (λ l. frame v ∷ l) (read_frames-write_frames vs bs short.1 g)

-- A payload of 2 ^ 32 bytes and more passes the size check when its length is small modulo 2 ^ 32;
-- the header then counts fewer bytes than follow it.
pub write_frame_wraps :
    {T : Type 0} (to_vec : T → Option Bytes) (v : T) (p : Bytes) (k : ℕ)
    → to_vec v ≡ some p
    → length p ≡ u32_mod + k
    → k ≤ max_frame_size
    → write_frame to_vec v ≡ written (to_be_bytes k ++ p)
unfolding write_frame
write_frame_wraps to_vec v p k e l h =
    ground (arith, e, l, h, wraps (length p) k l (omega (arith, h)))
  where
    wraps : (n k : ℕ) → n ≡ u32_mod + k → k < u32_mod → n % u32_mod ≡ k
    wraps n k l h = omega arith
