-- ===== src/Link/Convert/Frames.antt =====
-- link/convert.go: pane frames.
use rook_host.Base.{Option, none, some, false, [], map}
use rook_host.Base.Int.{pos, to_u32}
use rook_host.Projection.Pane.{StyleRun, PaneRow, PaneFrame}
use rook_host.Link.Wire.{StyleRunMsg, PaneRowMsg, PaneFrameMsg}

unfoldable pub run_to_proto : StyleRun → StyleRunMsg
run_to_proto r = record { start = r.start; len = r.len; fg = r.fg; bg = r.bg; attrs = r.attrs }

unfoldable pub row_to_proto : PaneRow → PaneRowMsg
unfolding run_to_proto
row_to_proto r = record { text = r.text; runs = map run_to_proto r.runs }

unfoldable pub pane_to_proto : PaneFrame → PaneFrameMsg
unfolding row_to_proto
pane_to_proto f = record {
  cols = to_u32 f.cols;
  rows = to_u32 f.rows;
  cursor_x = to_u32 f.cursor_x;
  cursor_y = to_u32 f.cursor_y;
  cursor_visible = f.cursor_visible;
  lines = map row_to_proto f.lines;
}

unfoldable pub run_from_proto : StyleRunMsg → StyleRun
run_from_proto r = record { start = r.start; len = r.len; fg = r.fg; bg = r.bg; attrs = r.attrs }

unfoldable pub row_from_proto : PaneRowMsg → PaneRow
unfolding run_from_proto
row_from_proto r = record { text = r.text; runs = map run_from_proto r.runs }

-- A nil message gives the zero frame.
unfoldable pub pane_from_proto : Option PaneFrameMsg → PaneFrame
unfolding row_from_proto
pane_from_proto none = record {
  cols = pos 0;
  rows = pos 0;
  cursor_x = pos 0;
  cursor_y = pos 0;
  cursor_visible = false;
  lines = [];
}
pane_from_proto (some p) = record {
  cols = pos p.cols;
  rows = pos p.rows;
  cursor_x = pos p.cursor_x;
  cursor_y = pos p.cursor_y;
  cursor_visible = p.cursor_visible;
  lines = map row_from_proto p.lines;
}
