-- ===== src/Serial/Write.antt =====
-- `write_bytes` of core/src/serializer.cpp: it overwrites from the write pointer on and grows the
-- buffer by what does not fit.
use zaf.Prelude.{
  ℕ, ◌+◌, ◌-◌, ◌≤◌, ◌<◌, ◌≡◌, refl, ap, ◌∙◌, min, ◌++◌, length, take, drop, length-append,
  length-take, length-drop, take_all, drop_all, take-append-drop, ltb→lt, append-nil, append_assoc,
  arith, ◌==◌, ltb, inl, inr, Bool-cases, ==→eq, eq→==, take-append_length, drop-append_length,
  take-append_add, drop-append_add, drop-drop,
}
use native.Mathlib.Nat.{add_assoc}
use zaf.Serial.{Bytes, Serializer, serializer, overwrite, write_bytes}

-- The pointer stands in the buffer or at its end.
abbrev pub IsInBuffer : Serializer → Type 0
IsInBuffer s = s.wptr ≤ length s.bytes

abbrev at_ptr : ℕ → Bytes → Serializer
at_ptr n bytes = record { bytes = bytes; wptr = n }

written_at_end :
    (b bytes : Bytes)
    → bytes ++ b ≡ take (length bytes) bytes ++ (b ++ drop (length bytes + length b) bytes)
written_at_end b bytes = rw (
  take_all (length bytes) bytes (omega arith),
  drop_all (length bytes + length b) bytes (omega arith),
  append-nil,
)

written_past_end :
    (b bytes : Bytes) (at : ℕ)
    → at ≤ length bytes
    → min (length bytes - at) (length b) < length b
    → let k = min (length bytes - at) (length b) in
      overwrite at (take k b) bytes ++ drop k b ≡ take at bytes ++ (b ++ drop (at + length b) bytes)
written_past_end b bytes at h l =
    let k = min (length bytes - at) (length b) in
    rw (
      drop_all (at + length (take k b)) bytes (omega (arith, length-take k b)),
      drop_all (at + length b) bytes (omega arith),
      append-nil,
      append-nil,
      append_assoc,
      take-append-drop k b,
    )

-- The whole effect of a write, on every branch, if the pointer stands in the buffer or at its end.
pub write_bytes-eq :
    (b : Bytes) (s : Serializer)
    → IsInBuffer s
    → write_bytes b s ≡ record {
      bytes = take s.wptr s.bytes ++ (b ++ drop (s.wptr + length b) s.bytes);
      wptr = s.wptr + length b;
    }
unfolding write_bytes
write_bytes-eq b s h = elim (Bool-cases (s.wptr == length s.bytes)) [
  | inl e ↦
      rw (e, ==→eq s.wptr (length s.bytes) e)
        (ap (at_ptr (length s.bytes + length b)) (written_at_end b s.bytes))
  | inr e ↦ elim (Bool-cases (ltb (min (length s.bytes - s.wptr) (length b)) (length b))) [
    | inl l ↦
        rw (e, l)
          (ap (at_ptr (s.wptr + length b)) (written_past_end b s.bytes s.wptr h (ltb→lt _ _ l)))
    | inr l ↦
        let all : min (length s.bytes - s.wptr) (length b) ≡ length b = ground arith in
        rw (e, l, all, take_all (length b) b (omega arith))
  ]
]

-- After a write the pointer is still in the buffer, which never shrinks.
pub write_bytes-IsInBuffer :
    (b : Bytes) (s : Serializer)
    → IsInBuffer s
    → IsInBuffer (write_bytes b s) × (length s.bytes ≤ length (write_bytes b s).bytes)
write_bytes-IsInBuffer b s h = rw (write_bytes-eq b s h) (
    omega (
      arith,
      length-append (take s.wptr s.bytes) (b ++ drop (s.wptr + length b) s.bytes),
      length-append b (drop (s.wptr + length b) s.bytes),
      length-take s.wptr s.bytes,
      length-drop (s.wptr + length b) s.bytes,
    ))

-- Two writes are one write of the bytes together, wherever in the buffer or at its end they begin.
pub write_bytes-write_bytes :
    (b c : Bytes) (s : Serializer)
    → IsInBuffer s
    → write_bytes c (write_bytes b s) ≡ write_bytes (b ++ c) s
write_bytes-write_bytes b c s h = rw (
  write_bytes-eq c (write_bytes b s) (write_bytes-IsInBuffer b s h).0,
  write_bytes-eq b s h,
  write_bytes-eq (b ++ c) s h,
  two_takes,
  two_drops,
  length-append b c,
  append_assoc,
  append_assoc,
  add_assoc,
)
  where
    kept : Bytes
    kept = take s.wptr s.bytes

    rest : Bytes
    rest = drop (s.wptr + length b) s.bytes

    two_takes : take (s.wptr + length b) (kept ++ (b ++ rest)) ≡ kept ++ b
    two_takes =
        take-append_add kept (b ++ rest) (s.wptr + length b) (length b)
          (omega (arith, length-take s.wptr s.bytes))
        ∙ ap (λ l. kept ++ l) (take-append_length b rest)

    two_drops :
        drop (s.wptr + length b + length c) (kept ++ (b ++ rest))
        ≡ drop (s.wptr + length b + length c) s.bytes
    two_drops =
        drop-append_add kept (b ++ rest) (s.wptr + length b + length c) (length b + length c)
          (omega (arith, length-take s.wptr s.bytes))
        ∙ drop-append_add b rest (length b + length c) (length c) refl
        ∙ drop-drop (s.wptr + length b + length c) (s.wptr + length b) (length c) s.bytes refl

-- A write at the end of the buffer appends.
pub write_bytes-serializer :
    (b bytes : Bytes) → write_bytes b (serializer bytes) ≡ serializer (bytes ++ b)
unfolding serializer write_bytes
write_bytes-serializer b bytes =
    rw (eq→== (length bytes) (length bytes) refl, length-append bytes b)

-- A write in the middle replaces as many bytes.
pub write_bytes-patch :
    (before old after b : Bytes)
    → length b ≡ length old
    → write_bytes b (record { bytes = before ++ (old ++ after); wptr = length before })
      ≡ record { bytes = before ++ (b ++ after); wptr = length before + length b }
write_bytes-patch before old after b e =
    write_bytes-eq b (record { bytes = before ++ (old ++ after); wptr = length before })
      (omega (arith, length-append before (old ++ after)))
    ∙ ap (λ l. record { bytes = l; wptr = length before + length b })
        (rw (
          take-append_length before (old ++ after),
          drop-append_add before (old ++ after) (length before + length b) (length b) refl,
          e,
          drop-append_length old after,
        ))
