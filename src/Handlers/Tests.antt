-- ===== src/Handlers/Tests.antt =====
-- Tables of handlers (core/src/message_handlers.cpp), with numbers for the handlers.
use zaf.Prelude.{ℕ, ◌≡◌, none, some, [], ◌∷◌}
use zaf.Handlers.{Table, alone, over, try_process_body, try_process}
use zaf.Handlers.Dispatch.{outermost, innermost_default, or_else, dispatch}

abbrev inner : Table ℕ
inner = record { handlers = (6, 60) ∷ []; default_handler = none }

abbrev user : Table ℕ
user = record { handlers = (1, 10) ∷ (6, 61) ∷ []; default_handler = some 99 }

dispatch_example :
    (try_process_body (over inner (alone user)) 7 ≡ outermost 7 (inner ∷ user ∷ []))
    × (try_process (over inner (alone user)) 7
        ≡ or_else (outermost 7 (inner ∷ user ∷ [])) (innermost_default (inner ∷ user ∷ [])))
dispatch_example = dispatch (over inner (alone user)) 7

abbrev added : Table ℕ
added = record { handlers = (3, 30) ∷ (1, 10) ∷ (6, 61) ∷ []; default_handler = some 99 }
