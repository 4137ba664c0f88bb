-- ===== src/Serial/Pod.antt =====
-- `write_pod` and `read_pod` of core/zaf/serializer.hpp on unsigned integers.
use native.Mathlib.Nat.{pow-suc}
use zaf.Prelude.{
  ℕ, zero, suc, ◌/◌, ◌^◌, ◌<◌, ◌≡◌, refl, ap, ◌++◌, some, arith, length, length-append,
  take-append_length, drop-append_length, ltb, inl, inr, Bool-cases, ltb→lt,
}
use zaf.Serial.{Bytes, to_bytes, of_bytes, read_bytes, read_pod}

pub length-to_bytes : (w x : ℕ) → length (to_bytes w x) ≡ w
unfolding to_bytes
length-to_bytes zero x = refl
length-to_bytes (suc w) x = ap suc (length-to_bytes w (x / 256))

-- An integer that fits its width is what its bytes stand for.
pub of_bytes-to_bytes : (w x : ℕ) → x < 256 ^ w → of_bytes (to_bytes w x) ≡ x
unfolding to_bytes of_bytes
of_bytes-to_bytes zero x h = omega arith
of_bytes-to_bytes (suc w) x h =
    let fits : x / 256 < 256 ^ w = omega (arith, pow-suc 256 w) in
    omega (arith, of_bytes-to_bytes w (x / 256) fits)

pub read_bytes-append :
    (b rest : Bytes) (n : ℕ) → n ≡ length b → read_bytes n (b ++ rest) ≡ some (b, rest)
unfolding read_bytes
read_bytes-append b rest n e = elim (Bool-cases (ltb (length (b ++ rest)) n)) [
  | inl l ↦ absurd (omega (arith, ltb→lt _ _ l, length-append b rest))
  | inr l ↦ rw (l, e, take-append_length b rest, drop-append_length b rest)
]

pub read_pod-to_bytes :
    (w x : ℕ) (rest : Bytes) → x < 256 ^ w → read_pod w (to_bytes w x ++ rest) ≡ some (x, rest)
unfolding read_pod
read_pod-to_bytes w x rest h =
    rw (read_bytes-append (to_bytes w x) rest w (omega (arith, length-to_bytes w x)), read_pod)
      (rw (of_bytes-to_bytes w x h))
