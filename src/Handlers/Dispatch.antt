-- ===== src/Handlers/Dispatch.antt =====
-- Which handler a message gets (core/src/message_handlers.cpp, core/zaf/message_handlers.hpp).
use zaf.Prelude.{
  ℕ, ◌≡◌, ◌≢◌, refl, ap, sym, ◌∙◌, Bool, true, false, Option, none, some, List, [], ◌∷◌, ◌==◌,
  if◌then◌else◌, inl, inr, Bool-cases, ==→eq, ne→==,
}
use mathlib.Core.Option.{some-injective}
use zaf.Serial.Codec.{◌>>=◌}
use zaf.Handlers.{
  Table, MessageHandlers, alone, over, Call, on_body, find, try_process_body, try_process,
  default_call, default_message_handler, add_handler, add_handlers,
}

module _ {H : Type 0} where
  -- The tables from the outermost to the innermost.
  abbrev pub levels : MessageHandlers H → List (Table H)
  levels (alone t) = t ∷ []
  levels (over t child) = t ∷ levels child

  -- The handler of the first table that has the code.
  abbrev pub outermost : ℕ → List (Table H) → Option (Call H)
  outermost code [] = none
  outermost code (t ∷ ts) = elim (find code t.handlers) [
    | none ↦ outermost code ts
    | some h ↦ some (on_body h)
  ]

  -- The default handler of the last table that has one.
  abbrev pub innermost_default : List (Table H) → Option (Call H)
  innermost_default [] = none
  innermost_default (t ∷ ts) = elim (innermost_default ts) [
    | none ↦ default_call t.default_handler
    | some call ↦ some call
  ]

  abbrev pub or_else : Option (Call H) → Option (Call H) → Option (Call H)
  or_else none o = o
  or_else (some call) o = some call

  own_default :
      (o : Option H) (d : Option (Call H))
      → elim o [ none ↦ d | some h ↦ some (on_body h) ]
        ≡ or_else (elim o [ none ↦ none | some h ↦ some (on_body h) ]) d
  own_default none d = refl
  own_default (some h) d = refl

  child_first :
      (o : Option H) (x y d : Option (Call H))
      → elim o [
        | none ↦ elim (or_else x y) [ none ↦ d | some call ↦ some call ]
        | some h ↦ some (on_body h)
      ]
        ≡ or_else
            (elim o [ none ↦ x | some h ↦ some (on_body h) ])
            (elim y [ none ↦ d | some call ↦ some call ])
  child_first none none none d = refl
  child_first none none (some c) d = refl
  child_first none (some c) y d = refl
  child_first (some h) x y d = refl

  -- A body is handled by the outermost table that has its code, never by a default handler; a message
  -- is handled the same way, and by the innermost default handler if no table has its code.
  pub dispatch :
      (m : MessageHandlers H) (code : ℕ)
      → (try_process_body m code ≡ outermost code (levels m))
        × (try_process m code ≡ or_else (outermost code (levels m)) (innermost_default (levels m)))
  unfolding try_process_body try_process
  dispatch (alone t) code =
      (refl, own_default (find code t.handlers) (default_call t.default_handler))
  dispatch (over t child) code = (
    ap (λ x. elim (find code t.handlers) [ none ↦ x | some h ↦ some (on_body h) ])
        (dispatch child code).0,
    ap
          (λ x. elim (find code t.handlers) [
            | none ↦ elim x [ none ↦ default_call t.default_handler | some call ↦ some call ]
            | some h ↦ some (on_body h)
          ])
          (dispatch child code).1
        ∙ child_first (find code t.handlers) (outermost code (levels child))
            (innermost_default (levels child)) (default_call t.default_handler),
  )

  abbrev pub first_of : Option H → Option H → Option H
  first_of none o = o
  first_of (some h) o = some h

  first_of-none : (o : Option H) → first_of o none ≡ o
  first_of-none none = refl
  first_of-none (some h) = refl

  first_of_assoc : (a b c : Option H) → first_of (first_of a b) c ≡ first_of a (first_of b c)
  first_of_assoc none b c = refl
  first_of_assoc (some h) b c = refl

  find-cons :
      (code c : ℕ) (h : H) (es : List (ℕ × H))
      → find code ((c, h) ∷ es) ≡ first_of (find code ((c, h) ∷ [])) (find code es)
  unfolding find
  find-cons code c h es = elim (Bool-cases (code == c)) [ inl e ↦ rw e refl | inr e ↦ rw e refl ]

  find-add_handler :
      (code c : ℕ) (h : H) (t t' : Table H)
      → code ≢ default_message_handler
      → add_handler (c, h) t ≡ some t'
      → find code t'.handlers ≡ first_of (find code t.handlers) (find code ((c, h) ∷ []))
  unfolding add_handler find
  find-add_handler code c h t t' n e = by_test (c == default_message_handler) refl e
    where
      as_default :
          (o : Option H)
          → some t' ≡ elim o [ none ↦ some (record t { default_handler = some h }) | some d ↦ none ]
          → find code t'.handlers ≡ find code t.handlers
      as_default none k = ap (λ u. find code u.handlers) (some-injective _ _ k)
      as_default (some d) k = cc

      as_code :
          (o : Option H)
          → find c t.handlers ≡ o
          → some t'
            ≡ elim o [ none ↦ some (record t { handlers = (c, h) ∷ t.handlers }) | some d ↦ none ]
          → find code t'.handlers
            ≡ first_of (find code t.handlers) (if code == c then some h else none)
      as_code none f k = elim (Bool-cases (code == c)) [
        | inl j ↦
            let missing : find code t.handlers ≡ none =
              ap (λ x. find x t.handlers) (==→eq code c j) ∙ f in
            rw (j, missing) (ap (λ u. find code u.handlers) (some-injective _ _ k) ∙ rw j refl)
        | inr j ↦ rw j (
            ap (λ u. find code u.handlers) (some-injective _ _ k)
            ∙ rw j (sym (first_of-none (find code t.handlers))))
      ]
      as_code (some d) f k = cc

      by_test :
          (b : Bool)
          → (c == default_message_handler) ≡ b
          → (if b
              then (elim t.default_handler [
                | none ↦ some (record t { default_handler = some h })
                | some d ↦ none
              ])
              else elim (find c t.handlers) [
                | none ↦ some (record t { handlers = (c, h) ∷ t.handlers })
                | some d ↦ none
              ])
            ≡ some t'
          → find code t'.handlers
            ≡ first_of (find code t.handlers) (if code == c then some h else none)
      by_test true d e =
          let away : (code == c) ≡ false =
            ne→== code c (λ k. n (k ∙ ==→eq c default_message_handler d)) in
          rw away
            (as_default t.default_handler (sym e) ∙ sym (first_of-none (find code t.handlers)))
      by_test false d e = as_code (find c t.handlers) refl (sym e)

  -- If add_handlers succeeds, each code but that of the default handler finds the handler that the
  -- table had, or the first one that was added for it.
  pub find-add_handlers :
      (code : ℕ) (es : List (ℕ × H)) (t t' : Table H)
      → code ≢ default_message_handler
      → add_handlers es t ≡ some t'
      → find code t'.handlers ≡ first_of (find code t.handlers) (find code es)
  unfolding add_handlers find
  find-add_handlers code [] t t' n e =
      ap (λ u. find code u.handlers) (sym (some-injective _ _ e))
      ∙ sym (first_of-none (find code t.handlers))
  find-add_handlers code ((c, h) ∷ es) t t' n e =
      go (add_handler (c, h) t) refl e (λ u k. find-add_handlers code es u t' n k)
    where
      go :
          (o : Option (Table H))
          → add_handler (c, h) t ≡ o
          → (o >>= λ u. add_handlers es u) ≡ some t'
          → ((u : Table H)
              → add_handlers es u ≡ some t'
              → find code t'.handlers ≡ first_of (find code u.handlers) (find code es))
          → find code t'.handlers ≡ first_of (find code t.handlers) (find code ((c, h) ∷ es))
      go none f k rest = cc
      go (some u) f k rest =
          rest u k
          ∙ ap (λ o. first_of o (find code es)) (find-add_handler code c h t u n f)
          ∙ first_of_assoc (find code t.handlers) (find code ((c, h) ∷ [])) (find code es)
          ∙ ap (first_of (find code t.handlers)) (sym (find-cons code c h es))
