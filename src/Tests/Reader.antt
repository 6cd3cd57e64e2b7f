-- ===== src/Tests/Reader.antt =====
-- Reading back, skipping, and reading bytes that nobody wrote.
use gsbm.Common.{ℕ, ◌≡◌, refl, List, [], ◌∷◌, ◌++◌, length, arith}
use gsbm.Errors.{ok}
use gsbm.Varint.Encoding.{varint}
use gsbm.Wire.{field_key}
use gsbm.Writer.State.{new_writer}
use gsbm.Writer.Calls.{run}
use gsbm.Reader.State.{new_reader}
use gsbm.Reader.Shapes.{shapes_of, read_shapes}
use gsbm.Reader.Shapes.Back.{read_shapes-run}
use gsbm.Reader.Safety.Session.{enter, tag, leave, skip, IsSafe, steps, steps-IsSafe}
use gsbm.Reader.Skip.{Payload, Fields, skip_all, skip_all-body}
use gsbm.Tests.Values.{order, order-IsLegal}

read_shapes-run_example :
    let src = (run order (new_writer [])).buf in
    read_shapes (shapes_of order) (new_reader src)
    ≡ (ok order, record (new_reader src) { pos = length src })
read_shapes-run_example = read_shapes-run order order-IsLegal

-- A region of 3 bytes, a key and a value inside it, and one leave too early.
steps-IsSafe_example :
    let src : List ℕ = 3 ∷ 8 ∷ 1 ∷ 1 ∷ 255 ∷ [] in
    IsSafe src
      (steps (enter ∷ tag ∷ leave ∷ skip 0 ∷ []) (record { reader = new_reader src; saved = [] }))
steps-IsSafe_example = steps-IsSafe (3 ∷ 8 ∷ 1 ∷ 1 ∷ 255 ∷ []) (enter ∷ tag ∷ leave ∷ skip 0 ∷ [])

four_bytes : Payload 3 (1 ∷ 2 ∷ 3 ∷ 4 ∷ [])
four_bytes = Payload.four (1 ∷ 2 ∷ 3 ∷ 4 ∷ []) refl refl

one_field : Fields (varint (field_key 5 3) ++ ((1 ∷ 2 ∷ 3 ∷ 4 ∷ []) ++ []))
one_field = Fields.field 5 3 (omega arith) (omega arith) (omega arith) four_bytes Fields.none_left

skip_all-body_example :
    let bs : List ℕ = varint (field_key 5 3) ++ ((1 ∷ 2 ∷ 3 ∷ 4 ∷ []) ++ []) in
    skip_all (length bs) (new_reader bs) ≡ (ok tt, record (new_reader bs) { pos = length bs })
skip_all-body_example =
    skip_all-body (varint (field_key 5 3) ++ ((1 ∷ 2 ∷ 3 ∷ 4 ∷ []) ++ [])) one_field
