-- ===== src/Tests/Imex.antt =====
-- Checks of archives and cells on concrete inputs.
use codenexus.Prelude.{
  ◌≡◌, refl, ◌↔◌, ◌++◌, ◌||◌, false, true, Text, codes, All, starts_with, trim_start_matches,
  is_whitespace,
}
use codenexus.Imex.Security.{
  ok, err, path_traversal, too_many_files, validate_zip_entry, validate_zip_archive, contains_dots,
  sanitize_csv_cell, is_formula_prefix,
}
use codenexus.Imex.Security.Checked.{
  Harmless, validate_zip_entry_iff, begins, sanitize_csv_cell_lem,
}

traversal_refused :
    validate_zip_entry (codes "a/../b") 1 false ≡ err (path_traversal (codes "a/../b"))
unfolding validate_zip_entry contains_dots starts_with
traversal_refused = refl

many_refused : validate_zip_archive 501 1 ≡ err (too_many_files 501 500)
unfolding validate_zip_archive
many_refused = refl

-- White space behind a sign stays, and what follows it.
sign_behind_space : sanitize_csv_cell (codes " = =1") ≡ codes " =1"
unfolding sanitize_csv_cell trim_start_matches is_whitespace is_formula_prefix
sign_behind_space = refl

validate_zip_entry_iff_example :
    (validate_zip_entry (codes "a/b.json") 500 false ≡ ok) ↔ Harmless (codes "a/b.json") 500 false
validate_zip_entry_iff_example = validate_zip_entry_iff (codes "a/b.json") 500 false

sanitize_csv_cell_lem_example :
    (begins is_formula_prefix (sanitize_csv_cell (codes "=1")) ≡ false)
    × ((front : Text) × (codes "=1" ≡ front ++ sanitize_csv_cell (codes "=1"))
        × All (λ c. (is_whitespace c || is_formula_prefix c) ≡ true) front)
sanitize_csv_cell_lem_example = sanitize_csv_cell_lem (codes "=1")
