-- ===== src/Delayed/Wait/Oversleep.antt =====
-- A wait that is too long (core/zaf/actor_behavior.tpp): what is left of a timeout is a count of ticks,
-- and is used as one of milliseconds.
use zaf.Prelude.{Option}
