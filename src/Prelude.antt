-- ===== src/Prelude.antt =====
-- The names that the other modules share: the libraries', passed on, and those of the children.
mod Tests
mod Int
mod Lists
pub mod Text
mod Results
mod Sets
pub use Tests.*
pub use Lists.*
pub use Text.*
unfoldable pub use Sets.{text_ltb, insert_text, extend_texts}
pub use Sets.{member-insert_text, member-extend_texts}
unfoldable pub use Text.{is_whitespace, utf8_length, strip_prefix, trim, split}
pub use Results.{Result, ok, err, ◌>>◌, map_ok, traverse, Result-cases}
pub use Results.{after_ok, after_map_ok, after_refuse_if, ok_or-eq-ok, map_err-eq-ok}
unfoldable pub use Results.{◌>>=◌, refuse_if, ok_or, map_err}
pub use Int.{ℤ, pos, negsuc, pos_part, neg_part, ◌≤ℤ◌, ◌<ℤ◌, ltb_ℤ, leb_ℤ, min_ℤ, max_ℤ, abs_diff}
pub use Int.{IsI64, IsModerate, add_i64_parts, sub_i64_parts, ltb_ℤ→lt, ltb_ℤ→ge}
pub use Int.{half_word, whole_word, ◌+ℤ◌, ◌-ℤ◌, add_i64-exact, sub_i64-exact}
unfoldable pub use Int.{add_i64, sub_i64, saturating_add}
pub use Prim.Native.Nat.{ℕ, zero, suc, ◌+◌, ◌-◌, ◌*◌, ◌/◌, ◌%◌, ◌^◌, ◌≤◌, ◌<◌}
pub use Prim.Native.String.{String}
pub use mathlib.Core.Path.{◌≡◌, refl, sym, ap, ◌∙◌, subst}
pub use mathlib.Core.Logic.{◌≢◌, ◌↔◌, ◌⊎◌, inl, inr}
pub use mathlib.Core.Bool.{Bool, true, false, not, ◌&&◌, ◌||◌}
pub use mathlib.Core.Option.{Option, none, some}
pub use mathlib.Core.List.{List, [], ◌∷◌, ◌++◌, map}
pub use native.Mathlib.Omega.{arith}
pub use text.Mathlib.TextEquality.{eq_iff}
pub use text.Mathlib.TextPositions.{eq_refl}
