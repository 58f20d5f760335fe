-- ===== src/Params/Tests.antt =====
-- Runs of http/jsonapi/runtime.
use bricks.Prelude.{◌+◌, ◌≡◌, arith}
use bricks.Prelude.Int.{pos, ◌+ℤ◌, ◌-ℤ◌}
use bricks.Params.Reading.{page_offset}
use bricks.Params.Pages.{InPage, pages_overlap}

pages_overlap_example :
    (page_offset (pos 20) (pos (3 + 1)) ≡ page_offset (pos 20) (pos 3) +ℤ pos 20)
    × InPage (pos 20) (pos 0) (pos 20 -ℤ pos 1)
    × InPage (pos 20) (pos 1) (pos 20 -ℤ pos 1)
pages_overlap_example = pages_overlap 20 3 (omega arith) (omega arith) (omega arith)
