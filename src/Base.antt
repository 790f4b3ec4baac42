-- ===== src/Base.antt =====
-- The names that the other modules share: the libraries', passed on, and those of the children.
mod Tests
mod Lists
mod Dicts
mod Results
mod Text
mod Rows
pub use Tests.*
pub use Lists.*
pub use Results.*
unfoldable pub use Rows.{touched, update_rows, row_count, Unique, find_row}
pub use Rows.{
  find_row-some, update_rows-Unique, update_rows-All, update_rows-In, Unique-snoc, All-snoc,
  All-weaken, All-In, any-In, Unique-In, any_of_In, In-update_rows, update_rows-clears,
  update_rows-none, update_rows_idle, row_count_none,
}
unfoldable pub use Text.{codes, is_space, lstrip, rstrip, strip, text_lt}
unfoldable pub use Dicts.{Dict, is_some, has, lookup, insert, keys}
pub use Dicts.{lookup-insert}
pub use Prim.Native.Nat.{ℕ, zero, suc, ◌+◌, ◌-◌, ◌*◌, ◌/◌, ◌%◌, ◌^◌, ◌≤◌, ◌<◌, min, max}
pub use Prim.Native.String.{String}
pub use mathlib.Core.Path.{◌≡◌, refl, sym, ap, ◌∙◌}
pub use mathlib.Core.Logic.{◌≢◌, ◌↔◌, ◌⊎◌, inl, inr}
pub use mathlib.Core.Bool.{Bool, true, false, not, ◌&&◌, ◌||◌}
pub use mathlib.Core.Option.{Option, none, some}
pub use mathlib.Core.List.{List, [], ◌∷◌, ◌++◌, map, append-nil, append_assoc}
pub use native.Mathlib.Omega.{arith}
pub use text.Mathlib.Text.{◌==◌}
pub use text.Mathlib.TextEquality.{eq_iff}
