-- ===== src/Projection/Pane.antt =====
-- Pane frames of projection/projection.go and PaneFrame.Clamp.
pub mod Bounds
use rook_host.Base.{ℕ, Bool, ◌||◌, List, map, if◌then◌else◌}
use rook_host.Base.Bytes.{Bytes}
use rook_host.Base.Int.{ℤ, pos, is_negative, exceeds}
use rook_host.Projection.Text.{clip, cap}

-- The five numbers are uint32.
pub record StyleRun : Type 0 where
  pub start : ℕ
  pub len : ℕ
  pub fg : ℕ
  pub bg : ℕ
  pub attrs : ℕ

pub record PaneRow : Type 0 where
  pub text : Bytes
  pub runs : List StyleRun

pub record PaneFrame : Type 0 where
  pub cols : ℤ
  pub rows : ℤ
  pub cursor_x : ℤ
  pub cursor_y : ℤ
  pub cursor_visible : Bool
  pub lines : List PaneRow

abbrev pub max_cols : ℕ
max_cols = 500

abbrev pub max_rows : ℕ
max_rows = 200

abbrev pub max_row_text : ℕ
max_row_text = 2000

-- `if x < 0 || x > n { x = n }`
abbrev pub clamp_size : ℕ → ℤ → ℤ
clamp_size n x = if is_negative x || exceeds x n then pos n else x

-- `if x < 0 { x = 0 }`
abbrev pub clamp_cursor : ℤ → ℤ
clamp_cursor x = if is_negative x then pos 0 else x

unfoldable pub clamp_row : PaneRow → PaneRow
clamp_row r = record r { text = clip r.text max_row_text; runs = cap max_cols r.runs }

unfoldable pub clamp : PaneFrame → PaneFrame
unfolding clamp_row
clamp f = record f {
  cols = clamp_size max_cols f.cols;
  rows = clamp_size max_rows f.rows;
  cursor_x = clamp_cursor f.cursor_x;
  cursor_y = clamp_cursor f.cursor_y;
  lines = map clamp_row (cap max_rows f.lines);
}
