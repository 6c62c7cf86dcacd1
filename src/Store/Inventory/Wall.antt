-- ===== src/Store/Inventory/Wall.antt =====
-- What `ensurePlacement` does to the wall of monitors.
use desk_control.Common.{
  ℤ, pos, ◌≤ℤ◌, max_ℤ, ◌+ℤ◌, le-max_left, le-max_right, le_trans_ℤ, String, true, List, [], ◌∷◌,
  none, some, Dict, lookup, lookup-insert, values, ◌≡◌, arith, All, Option-cases, inl, inr,
  string_eq,
}
use desk_control.Domain.Monitor.{Placement, Orientation}
use desk_control.Store.{DeskStore, mark_config_dirty, touch}
use desk_control.Store.Inventory.{right_edge, ensure_placement, auto_gap, auto_width, auto_height}

-- The tile ends at the column or before it.
abbrev pub EndsBefore : ℤ → Placement → Type 0
EndsBefore column p = p.x +ℤ pos p.width +ℤ pos auto_gap ≤ℤ column

right_edge-ge : (edge : ℤ) (ps : List Placement) → edge ≤ℤ right_edge edge ps
unfolding right_edge
right_edge-ge edge [] = omega arith
right_edge-ge edge (p ∷ ps) =
    let far = p.x +ℤ pos p.width +ℤ pos auto_gap in
    le_trans_ℤ edge (max_ℤ edge far) _ (le-max_left edge far) (right_edge-ge (max_ℤ edge far) ps)

right_edge-EndsBefore : (edge : ℤ) (ps : List Placement) → All (EndsBefore (right_edge edge ps)) ps
unfolding right_edge
right_edge-EndsBefore edge [] = tt
right_edge-EndsBefore edge (p ∷ ps) =
    let far = p.x +ℤ pos p.width +ℤ pos auto_gap in
    (
      le_trans_ℤ far (max_ℤ edge far) _ (le-max_right edge far) (right_edge-ge (max_ℤ edge far) ps),
      right_edge-EndsBefore (max_ℤ edge far) ps,
    )

abbrev pub placements_of : DeskStore → Dict String Placement
placements_of s = s.config.layout.placements

new_tile : DeskStore → Placement
new_tile s = record {
  x = right_edge (pos 0) (values (placements_of s));
  y = pos 0;
  width = auto_width;
  height = auto_height;
  orientation = Orientation.landscape;
  auto_placed = true;
}

-- The new tile: to the right of every other tile, a gap away, and not left of the wall's edge.
pub record IsPlaced (s t : DeskStore) (id : String) : Type 0 where
  pub tile : Placement
  pub here : lookup id (placements_of t) ≡ some tile
  pub clear : All (EndsBefore tile.x) (values (placements_of s))
  pub on_wall : (pos 0 ≤ℤ tile.x) × (pos 0 ≤ℤ tile.y)
  pub in_columns : tile.x +ℤ pos tile.width ≤ℤ t.config.layout.grid.columns
  pub in_rows : tile.y +ℤ pos tile.height ≤ℤ t.config.layout.grid.rows
  pub columns_grow : s.config.layout.grid.columns ≤ℤ t.config.layout.grid.columns
  pub rows_grow : s.config.layout.grid.rows ≤ℤ t.config.layout.grid.rows

placed_lem :
    (s : DeskStore) (id : String)
    → lookup id (placements_of s) ≡ none
    → IsPlaced s (ensure_placement s id) id
unfolding ensure_placement new_tile mark_config_dirty touch ◌+ℤ◌ max_ℤ
placed_lem s id e =
    let ps = values (placements_of s) in
    let x = right_edge (pos 0) ps in
    let columns = s.config.layout.grid.columns in
    let rows = s.config.layout.grid.rows in
    rw (e, ensure_placement)
      (record {
        tile = new_tile s;
        here = ground (arith, lookup-insert id id (new_tile s) (placements_of s));
        clear = right_edge-EndsBefore (pos 0) ps;
        on_wall = (right_edge-ge (pos 0) ps, omega arith);
        in_columns = le-max_right columns (x +ℤ pos auto_width);
        in_rows = le-max_right rows (pos auto_height);
        columns_grow = le-max_left columns (x +ℤ pos auto_width);
        rows_grow = le-max_left rows (pos auto_height);
      })

-- A tile that the user or an earlier report has set is kept, whichever monitor is placed.
ensure_placement-keeps :
    (s : DeskStore) (id j : String) (p : Placement)
    → lookup j (placements_of s) ≡ some p
    → lookup j (placements_of (ensure_placement s id)) ≡ some p
unfolding ensure_placement new_tile mark_config_dirty touch
ensure_placement-keeps s id j p e = elim (Option-cases (lookup id (placements_of s))) [
  | inl free ↦
      rw (free, ensure_placement)
        (ground (arith, lookup-insert j id (new_tile s) (placements_of s)))
  | inr (q, taken) ↦ rw (taken, ensure_placement) e
]

-- A monitor without a tile gets one that is a gap to the right of all others and inside the grid,
-- whose columns and rows never become fewer; every tile that there is stays as the user or an earlier report has set it.
pub ensure_placement-IsPlaced :
    (s : DeskStore) (id : String)
    → lookup id (placements_of s) ≡ none
    → IsPlaced s (ensure_placement s id) id
      × ((j : String) (p : Placement)
          → lookup j (placements_of s) ≡ some p
          → lookup j (placements_of (ensure_placement s id)) ≡ some p)
ensure_placement-IsPlaced s id e =
    (placed_lem s id e, λ j p there. ensure_placement-keeps s id j p there)
