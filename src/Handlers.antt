-- ===== src/Handlers.antt =====
-- core/zaf/message_handlers.hpp and core/src/message_handlers.cpp: the table of handlers that a
-- message is dispatched by, with the handlers of the current `receive` as its child.
-- A handler is a value of `H`; what it does is not the table's business. The hash map of handlers is
-- an association list without a code twice.
pub mod Dispatch
mod Tests
use zaf.Prelude.{
  ℕ, ◌+◌, ◌*◌, ◌-◌, ◌^◌, Bool, true, false, Option, none, some, List, [], ◌∷◌, ◌++◌, ◌==◌,
  if◌then◌else◌,
}
use zaf.Serial.Codec.{◌>>=◌}

-- `DefaultCodes::DefaultMessageHandler`.
abbrev pub default_message_handler : ℕ
default_message_handler = (2 ^ 32 - 1) * 2 ^ 32 + 8

pub record Table (H : Type 0) : Type 0 where
  pub handlers : List (ℕ × H)
  pub default_handler : Option H

-- A table alone, or with the handlers that `add_child_handlers` set.
pub data MessageHandlers (H : Type 0) : Type 0 where
  alone : Table H → MessageHandlers H
  over : Table H → MessageHandlers H → MessageHandlers H

-- What is called: `process_body` of a handler, or `process` of a default one.
pub data Call (H : Type 0) : Type 0 where
  on_body : H → Call H
  on_message : H → Call H

module _ {H : Type 0} where
  unfoldable pub find : ℕ → List (ℕ × H) → Option H
  find code [] = none
  find code ((c, h) ∷ hs) = if code == c then some h else find code hs

  unfoldable pub table_of : MessageHandlers H → Table H
  table_of (alone t) = t
  table_of (over t child) = t

  -- `none` is false.
  unfoldable pub try_process_body : MessageHandlers H → ℕ → Option (Call H)
  unfolding find
  try_process_body (alone t) code = elim (find code t.handlers) [
    | none ↦ none
    | some h ↦ some (on_body h)
  ]
  try_process_body (over t child) code =
      let below = try_process_body child code in
      elim (find code t.handlers) [ none ↦ below | some h ↦ some (on_body h) ]

  abbrev pub default_call : Option H → Option (Call H)
  default_call none = none
  default_call (some h) = some (on_message h)

  unfoldable pub try_process : MessageHandlers H → ℕ → Option (Call H)
  unfolding find
  try_process (alone t) code = elim (find code t.handlers) [
    | none ↦ default_call t.default_handler
    | some h ↦ some (on_body h)
  ]
  try_process (over t child) code =
      let below = try_process child code in
      elim (find code t.handlers) [
        | none ↦ elim below [ none ↦ default_call t.default_handler | some call ↦ some call ]
        | some h ↦ some (on_body h)
      ]

  -- One step of `add_handlers`; `none` is an exception.
  unfoldable pub add_handler : ℕ × H → Table H → Option (Table H)
  unfolding find
  add_handler (code, h) t =
      if code == default_message_handler
      then (elim t.default_handler [
        | none ↦ some (record t { default_handler = some h })
        | some d ↦ none
      ])
      else elim (find code t.handlers) [
        | none ↦ some (record t { handlers = (code, h) ∷ t.handlers })
        | some d ↦ none
      ]

  unfoldable pub add_handlers : List (ℕ × H) → Table H → Option (Table H)
  unfolding add_handler
  add_handlers [] t = some t
  add_handlers (e ∷ es) t = do t' ← add_handler e t; add_handlers es t'

  -- One step of `update_handlers`, which replaces what is there.
  unfoldable pub replace : ℕ → H → List (ℕ × H) → List (ℕ × H)
  replace code h [] = (code, h) ∷ []
  replace code h ((c, d) ∷ hs) = if code == c then (c, h) ∷ hs else (c, d) ∷ replace code h hs

  unfoldable pub update_handlers : List (ℕ × H) → Table H → Table H
  unfolding replace
  update_handlers [] t = t
  update_handlers ((code, h) ∷ es) t =
      if code == default_message_handler
      then update_handlers es (record t { default_handler = some h })
      else update_handlers es (record t { handlers = replace code h t.handlers })

  -- `add_child_handlers` and `remove_child_handlers`.
  unfoldable pub add_child_handlers : MessageHandlers H → MessageHandlers H → MessageHandlers H
  unfolding table_of
  add_child_handlers child m = over (table_of m) child

  unfoldable pub remove_child_handlers : MessageHandlers H → MessageHandlers H
  unfolding table_of
  remove_child_handlers m = alone (table_of m)
