-- ===== src/LessonEngine/Catalog.antt =====
-- crates/lesson-engine/src/catalog.rs: the indexed catalogue and its queries.
use Prim.Native.String.{String}
use text.Mathlib.Text.{◌==◌}
use mathlib.Core.List.{filter_map}
use linuxpracticelab.Common.{ℕ, Option, List, length, select, any}
use linuxpracticelab.Common.Assoc.{Assoc, lookup}
use linuxpracticelab.SharedTypes.Lesson.{Lesson, Module}

pub record Catalog : Type 0 where
  pub lessons : Assoc Lesson
  pub modules : Assoc Module
  -- Module ids in teaching order.
  pub module_order : List String
  -- Lesson ids in teaching order across the core modules.
  pub lesson_order : List String
  pub warnings : List String

unfoldable pub lesson : Catalog → String → Option Lesson
lesson c id = lookup id c.lessons

unfoldable pub core_lesson_ids : Catalog → List String
core_lesson_ids c = c.lesson_order

unfoldable pub core_lesson_count : Catalog → ℕ
core_lesson_count c = length c.lesson_order

unfoldable pub lesson_count : Catalog → ℕ
lesson_count c = length c.lessons

-- Lessons that introduce or exercise a command.
unfoldable pub lessons_for_command : Catalog → String → List Lesson
lessons_for_command c command =
    select (λ (l : Lesson). any (λ x. x == command) l.commands)
      (filter_map (λ id. lookup id c.lessons) c.lesson_order)
