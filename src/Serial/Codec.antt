-- ===== src/Serial/Codec.antt =====
-- The overloads of `serialize` and `deserialize` in core/zaf/serialization.hpp and
-- core/src/serialization.cpp, one codec for each kind of type. Overload resolution picks a codec by
-- the argument's type; here a codec is built from the codecs of the parts.
-- `save` is `serialize(s, x)`. `load` is `deserialize(s, t)`, which reads into an object that is
-- there; `fresh_load` is `deserialize<T>(s)`, which reads into `T t{}` (`blank`).
use zaf.Prelude.{
  ℕ, zero, suc, Bool, true, false, not, Option, none, some, List, [], ◌∷◌, ◌++◌, length, ◌==◌,
  if◌then◌else◌,
}
use zaf.Serial.{Bytes, Serializer, write_bytes, write_pod, read_bytes, read_pod}

pub record Codec (A : Type 0) : Type 0 where
  pub save : A → Serializer → Serializer
  pub blank : A
  pub load : A → Bytes → Option (A × Bytes)

-- A read that may fail, and the rest of the reads.
infixl 5 ◌>>=◌
abbrev pub ◌>>=◌ : {A B : Type 0} → Option A → (A → Option B) → Option B
none >>= f = none
some a >>= f = f a

abbrev pub fresh_load : {A : Type 0} → Codec A → Bytes → Option (A × Bytes)
fresh_load c b = c.load c.blank b

-- An unsigned integer of `w` bytes.
unfoldable pub pod : ℕ → Codec ℕ
pod w = record { save = write_pod w; blank = 0; load = λ t b. read_pod w b }

unfoldable pub bool : Codec Bool
bool = record {
  save = λ x. write_pod 1 (if x then 1 else 0);
  blank = false;
  load = λ t b. do
    (byte, rest) ← read_pod 1 b
    some (not (byte == 0), rest);
}

-- `size_t` and `unsigned`.
abbrev pub size_t : Codec ℕ
size_t = pod 8

abbrev pub unsigned : Codec ℕ
unsigned = pod 4

-- std::string.
unfoldable pub string : Codec Bytes
unfolding pod
string = record {
  save = λ str s. write_bytes str (size_t.save (length str) s);
  blank = [];
  load = λ str b. do
    (size, b') ← fresh_load size_t b
    read_bytes size b';
}

module _ {A : Type 0} (c : Codec A) where
  unfoldable pub save_items : List A → Serializer → Serializer
  save_items [] s = s
  save_items (x ∷ xs) s = save_items xs (c.save x s)

  -- The loop of `it.emplace_back(deserialize<E>(s))`.
  unfoldable pub load_items : ℕ → List A → Bytes → Option (List A × Bytes)
  load_items zero xs b = some (xs, b)
  load_items (suc n) xs b = fresh_load c b >>= λ r. load_items n (xs ++ r.0 ∷ []) r.1

  -- A container: it is read behind what is in it.
  unfoldable pub iterable : Codec (List A)
  unfolding save_items load_items pod
  iterable = record {
    save = λ xs s. save_items xs (size_t.save (length xs) s);
    blank = [];
    load = λ xs b. do
      (size, b') ← fresh_load size_t b
      load_items size xs b';
  }

  -- std::optional: reading "no value" leaves the object as it is.
  unfoldable pub optional : Codec (Option A)
  unfolding bool
  optional = record {
    save = λ o s. elim o [ none ↦ bool.save false s | some x ↦ c.save x (bool.save true s) ];
    blank = none;
    load = λ o b. do
      (has_value, b') ← fresh_load bool b
      if has_value then (fresh_load c b' >>= λ r. some (some r.0, r.1)) else some (o, b');
  }

  -- std::unique_ptr, std::shared_ptr: reading "no value" resets the pointer.
  unfoldable pub nullable : Codec (Option A)
  unfolding bool
  nullable = record {
    save = λ o s. elim o [ none ↦ bool.save false s | some x ↦ c.save x (bool.save true s) ];
    blank = none;
    load = λ o b. do
      (has_value, b') ← fresh_load bool b
      if has_value then (fresh_load c b' >>= λ r. some (some r.0, r.1)) else some (none, b');
  }

-- std::pair; std::tuple and the variadic `write` and `read` are pairs of pairs.
unfoldable pub pair : {A B : Type 0} → Codec A → Codec B → Codec (A × B)
pair c d = record {
  save = λ p s. d.save p.1 (c.save p.0 s);
  blank = (c.blank, d.blank);
  load = λ p b. do
    (x, b') ← c.load p.0 b
    (y, b'') ← d.load p.1 b'
    some ((x, y), b'');
}
