-- ===== src/Serial/Containers.antt =====
-- Reading back std::optional, pointers and containers (core/zaf/serialization.hpp): lawful when the
-- codec of what they hold is.
use zaf.Prelude.{
  ◌≡◌, ◌∙◌, true, false, List, [], ◌∷◌, ◌++◌, Option, none, some, length, append_assoc, append-nil,
}
use zaf.Serial.{Bytes, serializer, to_bytes}
use zaf.Serial.Pod.{read_pod-to_bytes}
use zaf.Serial.Codec.{Codec, fresh_load, bool, save_items, load_items, iterable, optional, nullable}
use zaf.Serial.RoundTrip.{
  encode, IsLawful, IsLawful-mk, encode-eq, bool-IsLawful, pod-save, FitsLength,
}

abbrev pub FitsOption : {A : Type 0} → (A → Type 0) → Option A → Type 0
FitsOption P none = Unit
FitsOption P (some x) = P x

abbrev pub All : {A : Type 0} → (A → Type 0) → List A → Type 0
All P [] = Unit
All P (x ∷ xs) = P x × All P xs

abbrev encode_option : {A : Type 0} → Codec A → Option A → Bytes
encode_option c none = encode bool false
encode_option c (some x) = encode bool true ++ encode c x

abbrev encode_items : {A : Type 0} → Codec A → List A → Bytes
encode_items c [] = []
encode_items c (x ∷ xs) = encode c x ++ encode_items c xs

module _ {A : Type 0} {c : Codec A} {P : A → Type 0} (l : IsLawful c P) where
  save-optional :
      (o : Option A) (b : Bytes)
      → (optional c).save o (serializer b) ≡ serializer (b ++ encode_option c o)
  unfolding optional
  save-optional none b = bool-IsLawful.save_appends false b
  save-optional (some x) b =
      rw (bool-IsLawful.save_appends true b, l.save_appends x (b ++ encode bool true), append_assoc)

  -- What stays in an object that "no value" is read into.
  abbrev pub kept : Option A → Option A → Option A
  kept none o = o
  kept (some x) o = some x

  load-encode_option :
      (x o : Option A) (rest : Bytes)
      → FitsOption P x
      → (optional c).load o (encode_option c x ++ rest) ≡ some (kept x o, rest)
  unfolding optional
  load-encode_option none o rest h = rw (bool-IsLawful.load_encode false rest tt)
  load-encode_option (some x) o rest h =
      rw (
        append_assoc,
        bool-IsLawful.load_encode true (encode c x ++ rest) tt,
        l.load_encode x rest h,
      )

  -- A value that may be missing.
  pub optional-IsLawful : IsLawful (optional c) (FitsOption P)
  optional-IsLawful =
      IsLawful-mk (optional c) (FitsOption P) (encode_option c) save-optional
        (λ o rest h. fresh o rest (load-encode_option o none rest h))
    where
      fresh :
          (o : Option A) (rest : Bytes)
          → (optional c).load none (encode_option c o ++ rest) ≡ some (kept o none, rest)
          → fresh_load (optional c) (encode_option c o ++ rest) ≡ some (o, rest)
      fresh none rest h = unfold optional in h
      fresh (some x) rest h = unfold optional in h

  -- Reading an optional into an object that is there gives the value that was written, or the
  -- object's own value if none was; the rest of the input is left. The codec is lawful on the value.
  pub load-optional :
      (x o : Option A) (rest : Bytes)
      → FitsOption P x
      → (optional c).load o (encode (optional c) x ++ rest) ≡ some (kept x o, rest)
  load-optional x o rest h =
      rw (encode-eq (optional c) (FitsOption P) (encode_option c) save-optional x)
        (load-encode_option x o rest h)

  -- A pointer that may be null, with the value that it points to.
  pub nullable-IsLawful : IsLawful (nullable c) (FitsOption P)
  nullable-IsLawful = IsLawful-mk (nullable c) (FitsOption P) (encode_option c) save load
    where
      save :
          (o : Option A) (b : Bytes)
          → (nullable c).save o (serializer b) ≡ serializer (b ++ encode_option c o)
      save none b = unfold nullable in bool-IsLawful.save_appends false b
      save (some x) b =
          unfold nullable in
          rw (
            bool-IsLawful.save_appends true b,
            l.save_appends x (b ++ encode bool true),
            append_assoc,
          )

      load :
          (o : Option A) (rest : Bytes)
          → FitsOption P o
          → fresh_load (nullable c) (encode_option c o ++ rest) ≡ some (o, rest)
      load none rest h = unfold nullable in rw (bool-IsLawful.load_encode false rest tt)
      load (some x) rest h =
          unfold nullable in
          rw (
            append_assoc,
            bool-IsLawful.load_encode true (encode c x ++ rest) tt,
            l.load_encode x rest h,
          )

  save_items-eq :
      (xs : List A) (b : Bytes)
      → save_items c xs (serializer b) ≡ serializer (b ++ encode_items c xs)
  unfolding save_items
  save_items-eq [] b = rw append-nil
  save_items-eq (x ∷ xs) b =
      rw (l.save_appends x b, save_items-eq xs (b ++ encode c x), append_assoc)

  load_items-encode :
      (xs done : List A) (rest : Bytes)
      → All P xs
      → load_items c (length xs) done (encode_items c xs ++ rest) ≡ some (done ++ xs, rest)
  unfolding load_items
  load_items-encode [] done rest h = rw append-nil
  load_items-encode (x ∷ xs) done rest h =
      rw (append_assoc, l.load_encode x (encode_items c xs ++ rest) h.0)
        (load_items-encode xs (done ++ x ∷ []) rest h.1 ∙ rw append_assoc)

  -- The length, then the items in order.
  abbrev encode_iterable : List A → Bytes
  encode_iterable xs = to_bytes 8 (length xs) ++ encode_items c xs

  save-iterable :
      (xs : List A) (b : Bytes)
      → (iterable c).save xs (serializer b) ≡ serializer (b ++ encode_iterable xs)
  unfolding iterable
  save-iterable xs b =
      rw (pod-save 8 (length xs) b, save_items-eq xs (b ++ to_bytes 8 (length xs)), append_assoc)

  load-encode_iterable :
      (xs ys : List A) (rest : Bytes)
      → FitsLength (length xs)
      → All P xs
      → (iterable c).load ys (encode_iterable xs ++ rest) ≡ some (ys ++ xs, rest)
  unfolding iterable
  load-encode_iterable xs ys rest h a =
      rw (append_assoc, read_pod-to_bytes 8 (length xs) (encode_items c xs ++ rest) h)
        (load_items-encode xs ys rest a)

  -- A container: its length, then its items in order.
  pub iterable-IsLawful : IsLawful (iterable c) (λ xs. FitsLength (length xs) × All P xs)
  iterable-IsLawful =
      IsLawful-mk (iterable c) (λ xs. FitsLength (length xs) × All P xs) encode_iterable
        save-iterable (λ xs rest h. unfold iterable in load-encode_iterable xs [] rest h.0 h.1)

  -- Reading a container into one that is there appends the items that were written, in order, and
  -- leaves the rest of the input, if the codec is lawful on the items and their number fits a size_t.
  pub load-iterable :
      (xs ys : List A) (rest : Bytes)
      → FitsLength (length xs)
      → All P xs
      → (iterable c).load ys (encode (iterable c) xs ++ rest) ≡ some (ys ++ xs, rest)
  load-iterable xs ys rest h a =
      rw (encode-eq (iterable c) (λ xs. Unit {0}) encode_iterable save-iterable xs)
        (load-encode_iterable xs ys rest h a)
