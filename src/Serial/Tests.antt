-- ===== src/Serial/Tests.antt =====
-- The buffer and the codecs of core/zaf/serializer.hpp and core/zaf/serialization.hpp on concrete
-- values.
use zaf.Prelude.{◌≡◌, [], ◌∷◌, ◌++◌, some, arith}
use zaf.Serial.{Bytes, Serializer}
use zaf.Serial.Codec.{unsigned, iterable}
use zaf.Serial.RoundTrip.{encode, pod-IsLawful}
use zaf.Serial.Containers.{load-iterable}

-- The pointer stands in the middle, and the bytes go past the end.
abbrev in_the_middle : Serializer
in_the_middle = record { bytes = 1 ∷ 2 ∷ 3 ∷ []; wptr = 1 }

abbrev three_bytes : Bytes
three_bytes = 7 ∷ 8 ∷ 9 ∷ []

load-iterable_example :
    (iterable unsigned).load (5 ∷ []) (encode (iterable unsigned) (6 ∷ 7 ∷ []) ++ 1 ∷ [])
    ≡ some (5 ∷ 6 ∷ 7 ∷ [], 1 ∷ [])
load-iterable_example =
    load-iterable (pod-IsLawful 4) (6 ∷ 7 ∷ []) (5 ∷ []) (1 ∷ []) (omega arith)
      (omega arith, (omega arith, tt))
