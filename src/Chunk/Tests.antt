-- ===== src/Chunk/Tests.antt =====
-- A small chunk, and instances of the theorems.
use aer.Base.{ℕ, ◌≡◌, refl, inl, [], ◌∷◌, some, true, length, arith}
use aer.Base.Bytes.{codes, str_equal}
use aer.HashTable.Store.{lookup-IsUnused, IsUnused}
use aer.Chunk.Lines.{IsMarked, Marked, chunk_mark_line-Marked}
use aer.Chunk.Pool.{IsIndexed, Added, chunk_add_pool-Added}
use aer.Chunk.Shapes.{Newest, chunk_find_shape-Newest, Imported, chunk_add_import-Imported}
use aer.Chunk.{
  Chunk, chunk_find_shape, chunk_add_import, string, chunk_init, chunk_mark_line,
  chunk_line_for_offset, chunk_add_pool,
}

-- Statements at the offsets 0, 4 and 9.
abbrev three_marks : Chunk
three_marks = chunk_mark_line (chunk_mark_line (chunk_mark_line chunk_init 0 1) 4 2) 9 7

line_of_six : chunk_line_for_offset three_marks 6 ≡ some 2
unfolding chunk_line_for_offset chunk_mark_line
line_of_six = refl

chunk_init-IsMarked : IsMarked chunk_init
chunk_init-IsMarked = record { increasing = λ i j h k. elim k [ ]; paired = refl }

chunk_mark_line-Marked_example : Marked chunk_init 4 2 (chunk_mark_line chunk_init 4 2)
chunk_mark_line-Marked_example = chunk_mark_line-Marked chunk_init chunk_init-IsMarked 4 2

chunk_init-IsIndexed : IsIndexed chunk_init
chunk_init-IsIndexed =
    let unused : IsUnused chunk_init.name_index = record {
      null = refl;
      no_count = refl;
      no_capacity = refl;
    } in
    record {
      valid = inl unused;
      small = omega arith;
      agrees = λ k i.
          (λ e. let none_there = lookup-IsUnused chunk_init.name_index unused k in cc, λ e. cc);
    }

chunk_add_pool-Added_example :
    (r : Chunk × ℕ) × ((chunk_add_pool chunk_init (string (codes "x")) ≡ some r)
      × Added chunk_init (string (codes "x")) r)
chunk_add_pool-Added_example =
    chunk_add_pool-Added chunk_init chunk_init-IsIndexed (string (codes "x")) (omega arith)

-- Two declarations of the same struct.
abbrev two_points : Chunk
two_points = record chunk_init {
  pool = string (codes "P") ∷ [];
  shapes =
      record { name = 0; field_names = []; field_defaults = [] }
      ∷ record { name = 0; field_names = 0 ∷ []; field_defaults = [] }
      ∷ [];
}

newest_point : chunk_find_shape two_points (codes "P") ≡ some 1
unfolding chunk_find_shape str_equal
newest_point = refl

chunk_find_shape-Newest_example :
    Newest two_points
      (codes "P")
      (length two_points.shapes)
      (chunk_find_shape two_points (codes "P"))
chunk_find_shape-Newest_example = chunk_find_shape-Newest two_points (codes "P")

chunk_add_import-Imported_example :
    Imported true chunk_init (codes "math") (chunk_add_import true chunk_init (codes "math"))
chunk_add_import-Imported_example = chunk_add_import-Imported true chunk_init (codes "math")
