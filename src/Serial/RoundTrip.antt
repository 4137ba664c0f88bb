-- ===== src/Serial/RoundTrip.antt =====
-- Reading back what was written: the codecs of core/zaf/serialization.hpp and
-- core/src/serialization.cpp are lawful, each for the values that its format can hold.
use zaf.Prelude.{
  ℕ, ◌^◌, ◌<◌, ◌≡◌, refl, ap, subst, ◌∙◌, Bool, true, false, [], ◌++◌, some, arith, length,
  append_assoc, append-nil, if◌then◌else◌,
}
use zaf.Serial.{Bytes, serializer, to_bytes, write_pod}
use zaf.Serial.Write.{write_bytes-serializer}
use zaf.Serial.Pod.{read_bytes-append, read_pod-to_bytes}
use zaf.Serial.Codec.{Codec, fresh_load, pod, bool, string, pair}

-- The bytes that `serialize` puts into an empty buffer.
abbrev pub encode : {A : Type 0} → Codec A → A → Bytes
encode c x = (c.save x (serializer [])).bytes

-- At the end of a buffer `serialize` appends the same bytes; `deserialize<T>` takes exactly them.
pub record IsLawful {A : Type 0} (c : Codec A) (Fits : A → Type 0) : Type 0 where
  pub save_appends : (x : A) (b : Bytes) → c.save x (serializer b) ≡ serializer (b ++ encode c x)
  pub load_encode :
      (x : A) (rest : Bytes) → Fits x → fresh_load c (encode c x ++ rest) ≡ some (x, rest)

-- From a description of the bytes.
module _ {A : Type 0} (c : Codec A) (Fits : A → Type 0) (e : A → Bytes) where
  pub encode-eq :
      ((x : A) (b : Bytes) → c.save x (serializer b) ≡ serializer (b ++ e x))
      → (x : A) → encode c x ≡ e x
  encode-eq h x = ap (λ s. s.bytes) (h x []) ∙ (unfold serializer in refl)

  pub IsLawful-mk :
      ((x : A) (b : Bytes) → c.save x (serializer b) ≡ serializer (b ++ e x))
      → ((x : A) (rest : Bytes) → Fits x → fresh_load c (e x ++ rest) ≡ some (x, rest))
      → IsLawful c Fits
  IsLawful-mk save load = record {
    save_appends = λ x b. rw (encode-eq save x) (save x b);
    load_encode = λ x rest h. rw (encode-eq save x) (load x rest h);
  }

abbrev pub FitsPod : ℕ → ℕ → Type 0
FitsPod w x = x < 256 ^ w

pub pod-save :
    (w x : ℕ) (b : Bytes) → (pod w).save x (serializer b) ≡ serializer (b ++ to_bytes w x)
pod-save w x b = unfold pod write_pod in write_bytes-serializer (to_bytes w x) b

pub pod-IsLawful : (w : ℕ) → IsLawful (pod w) (FitsPod w)
pod-IsLawful w =
    IsLawful-mk (pod w) (FitsPod w) (to_bytes w) (pod-save w)
      (λ x rest h. unfold pod in read_pod-to_bytes w x rest h)

bool_byte : Bool → ℕ
bool_byte b = if b then 1 else 0

-- Every truth value.
pub bool-IsLawful : IsLawful bool (λ b. Unit {0})
bool-IsLawful =
    IsLawful-mk bool (λ b. Unit) (λ x. to_bytes 1 (bool_byte x))
      (λ x b.
        unfold bool write_pod bool_byte in
        write_bytes-serializer (to_bytes 1 (if x then 1 else 0)) b)
      load
  where
    load :
        (x : Bool) (rest : Bytes)
        → Unit {0}
        → fresh_load bool (to_bytes 1 (bool_byte x) ++ rest) ≡ some (x, rest)
    load true rest h = unfold bool bool_byte in rw (read_pod-to_bytes 1 1 rest (omega arith))
    load false rest h = unfold bool bool_byte in rw (read_pod-to_bytes 1 0 rest (omega arith))

-- The length of a container is written in eight bytes.
abbrev pub FitsLength : ℕ → Type 0
FitsLength n = n < 256 ^ 8

pub string-IsLawful : IsLawful string (λ str. FitsLength (length str))
string-IsLawful =
    IsLawful-mk string (λ str. FitsLength (length str)) (λ str. to_bytes 8 (length str) ++ str) save
      load
  where
    save :
        (str b : Bytes)
        → string.save str (serializer b) ≡ serializer (b ++ (to_bytes 8 (length str) ++ str))
    save str b =
        unfold string in
        rw (
          pod-save 8 (length str) b,
          write_bytes-serializer str (b ++ to_bytes 8 (length str)),
          append_assoc,
        )

    load :
        (str rest : Bytes)
        → FitsLength (length str)
        → fresh_load string ((to_bytes 8 (length str) ++ str) ++ rest) ≡ some (str, rest)
    load str rest h =
        unfold string in
        rw (
          append_assoc,
          read_pod-to_bytes 8 (length str) (str ++ rest) h,
          read_bytes-append str rest (length str) refl,
        )

module _ {A B : Type 0} {c : Codec A} {d : Codec B} {P : A → Type 0} {Q : B → Type 0} where
  -- Two values in a row.
  pub pair-IsLawful : IsLawful c P → IsLawful d Q → IsLawful (pair c d) (λ p. P p.0 × Q p.1)
  pair-IsLawful l m =
      IsLawful-mk (pair c d) (λ p. P p.0 × Q p.1) (λ p. encode c p.0 ++ encode d p.1)
        (λ p b.
          unfold pair in
          rw (l.save_appends p.0 b, m.save_appends p.1 (b ++ encode c p.0), append_assoc))
        (λ p rest h.
          unfold pair in
          rw (
            append_assoc,
            l.load_encode p.0 (encode d p.1 ++ rest) h.0,
            m.load_encode p.1 rest h.1,
          ))

-- What a lawful codec writes into a new buffer it reads back, and nothing is left.
pub load-save :
    {A : Type 0} {c : Codec A} {P : A → Type 0} (l : IsLawful c P) (x : A)
    → P x
    → fresh_load c (c.save x (serializer [])).bytes ≡ some (x, [])
load-save {c = c} l x h =
    subst (λ b. fresh_load c b ≡ some (x, [])) (append-nil (encode c x)) (l.load_encode x [] h)
