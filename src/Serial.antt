-- ===== src/Serial.antt =====
-- core/zaf/serializer.hpp and core/src/serializer.cpp: the byte buffer that `Serializer` writes with
-- a movable write pointer, and the bytes that `Deserializer` reads.
-- A byte is a number below 256. The buffer's length is a `size_t` that fits the memory, so the write
-- pointer does not wrap. `write_pod` copies the object representation: on the little-endian machines
-- that ZAF runs on, the bytes of an unsigned integer from the lowest on.
pub mod Write
pub mod Pod
pub mod Codec
pub mod RoundTrip
pub mod Containers
mod Tests
use zaf.Prelude.{
  ℕ, zero, suc, ◌+◌, ◌-◌, ◌*◌, ◌/◌, ◌%◌, ◌^◌, Bool, true, false, min, Option, none, some, List, [],
  ◌∷◌, ◌++◌, length, take, drop, ltb, ◌==◌, if◌then◌else◌,
}

abbrev pub Bytes : Type 0
Bytes = List ℕ

pub record Serializer : Type 0 where
  pub bytes : Bytes
  pub wptr : ℕ

-- `Serializer(byte_buffer)`: the pointer starts at the end.
unfoldable pub serializer : Bytes → Serializer
serializer bytes = record { bytes = bytes; wptr = length bytes }

-- `std::copy` of `b` over the bytes from `at` on.
abbrev pub overwrite : ℕ → Bytes → Bytes → Bytes
overwrite at b bytes = take at bytes ++ (b ++ drop (at + length b) bytes)

unfoldable pub write_bytes : Bytes → Serializer → Serializer
write_bytes b s =
    let n = length b in
    let copy_len = min (length s.bytes - s.wptr) n in
    let copied = overwrite s.wptr (take copy_len b) s.bytes in
    if s.wptr == length s.bytes
    then record { bytes = s.bytes ++ b; wptr = s.wptr + n }
    else record {
      bytes = if ltb copy_len n then copied ++ drop copy_len b else copied;
      wptr = s.wptr + n;
    }

-- `none` is the exception "Invalid write pointer".
unfoldable pub move_write_ptr_to : ℕ → Serializer → Option Serializer
move_write_ptr_to ptr s = if ltb (length s.bytes) ptr then none else some (record s { wptr = ptr })

unfoldable pub move_write_ptr_to_end : Serializer → Serializer
move_write_ptr_to_end s = record s { wptr = length s.bytes }

-- `Deserializer::read_bytes`, on the bytes from its pointer on; `none` is a read past their end.
unfoldable pub read_bytes : ℕ → Bytes → Option (Bytes × Bytes)
read_bytes n b = if ltb (length b) n then none else some (take n b, drop n b)

-- The object representation of an unsigned integer of `w` bytes, and the integer that it stands for.
unfoldable pub to_bytes : ℕ → ℕ → Bytes
to_bytes zero x = []
to_bytes (suc w) x = (x % 256) ∷ to_bytes w (x / 256)

unfoldable pub of_bytes : Bytes → ℕ
of_bytes [] = 0
of_bytes (b ∷ bs) = b + 256 * of_bytes bs

-- `write_pod` and `read_pod` of an unsigned integer of `w` bytes.
unfoldable pub write_pod : ℕ → ℕ → Serializer → Serializer
write_pod w x = write_bytes (to_bytes w x)

unfoldable pub read_pod : ℕ → Bytes → Option (ℕ × Bytes)
read_pod w b = elim (read_bytes w b) [
  | none ↦ none
  | some (taken, rest) ↦ some (of_bytes taken, rest)
]
