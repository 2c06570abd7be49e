-- ===== src/Projection/Pane/Bounds.antt =====
-- What PaneFrame.Clamp bounds.
use rook_host.Base.{
  ℕ, ◌≤◌, ◌≡◌, ◌↔◌, refl, subst, inl, inr, length, All, All-map, arith, Bool-cases,
}
use rook_host.Base.Int.{ℤ, pos, negsuc, exceeds}
use rook_host.Projection.Text.{cap}
use rook_host.Projection.Text.Clip.{length-clip-le, clip_short}
use rook_host.Projection.Text.Cap.{Within, length-cap, cap_short, length-map-cap, map-cap_fixed}
use rook_host.Projection.Pane.{PaneRow, PaneFrame, clamp_size, clamp_cursor, clamp_row, clamp}

-- Between 0 and n.
abbrev InSize : ℕ → ℤ → Type 0
InSize n (pos m) = m ≤ n
InSize n (negsuc m) = ⊥

abbrev NotNegative : ℤ → Type 0
NotNegative (pos m) = Unit
NotNegative (negsuc m) = ⊥

record RowFits (r : PaneRow) : Type 0 where
  text : Within 2000 r.text
  runs : length r.runs ≤ 500

record FrameFits (f : PaneFrame) : Type 0 where
  cols : InSize 500 f.cols
  rows : InSize 200 f.rows
  cursor_x : NotNegative f.cursor_x
  cursor_y : NotNegative f.cursor_y
  lines : length f.lines ≤ 200
  each_line : All RowFits f.lines

clamp_size-InSize : (n : ℕ) (x : ℤ) → InSize n (clamp_size n x)
clamp_size-InSize n (pos m) = elim (Bool-cases (exceeds (pos m) n)) [
  | inl e ↦ rw e (omega arith)
  | inr e ↦ rw e (ground arith)
]
clamp_size-InSize n (negsuc m) = omega arith

clamp_size_fixed : (n : ℕ) (x : ℤ) → InSize n x → clamp_size n x ≡ x
clamp_size_fixed n (pos m) h = ground arith
clamp_size_fixed n (negsuc m) h = absurd h

clamp_cursor-NotNegative : (x : ℤ) → NotNegative (clamp_cursor x)
clamp_cursor-NotNegative (pos m) = tt
clamp_cursor-NotNegative (negsuc m) = tt

clamp_cursor_fixed : (x : ℤ) → NotNegative x → clamp_cursor x ≡ x
clamp_cursor_fixed (pos m) h = refl
clamp_cursor_fixed (negsuc m) h = absurd h

clamp_row-Fits : (r : PaneRow) → RowFits (clamp_row r)
unfolding clamp_row
clamp_row-Fits r = record { text = length-clip-le r.text 2000; runs = length-cap 500 r.runs }

clamp_row_fixed : (r : PaneRow) → RowFits r → clamp_row r ≡ r
unfolding clamp_row
clamp_row_fixed r f =
    λ i. record r { text = clip_short r.text 2000 f.text i; runs = cap_short 500 r.runs f.runs i }

clamp-Fits : (f : PaneFrame) → FrameFits (clamp f)
unfolding clamp
clamp-Fits f = record {
  cols = clamp_size-InSize 500 f.cols;
  rows = clamp_size-InSize 200 f.rows;
  cursor_x = clamp_cursor-NotNegative f.cursor_x;
  cursor_y = clamp_cursor-NotNegative f.cursor_y;
  lines = length-map-cap clamp_row 200 f.lines;
  each_line = All-map RowFits clamp_row (cap 200 f.lines) clamp_row-Fits;
}

clamp_fixed : (f : PaneFrame) → FrameFits f → clamp f ≡ f
unfolding clamp
clamp_fixed f h = λ i. record f {
  cols = clamp_size_fixed 500 f.cols h.cols i;
  rows = clamp_size_fixed 200 f.rows h.rows i;
  cursor_x = clamp_cursor_fixed f.cursor_x h.cursor_x i;
  cursor_y = clamp_cursor_fixed f.cursor_y h.cursor_y i;
  lines = map-cap_fixed RowFits clamp_row 200 f.lines clamp_row_fixed h.lines h.each_line i;
}

-- Clamping leaves a frame alone exactly when it is within the caps; the clamped frame is within
-- them, and clamping it again changes nothing.
frame_clamp-exact :
    (f : PaneFrame)
    → ((clamp f ≡ f) ↔ FrameFits f) × FrameFits (clamp f) × (clamp (clamp f) ≡ clamp f)
frame_clamp-exact f = (
  (λ e. subst FrameFits e (clamp-Fits f), clamp_fixed f),
  clamp-Fits f,
  clamp_fixed (clamp f) (clamp-Fits f),
)
