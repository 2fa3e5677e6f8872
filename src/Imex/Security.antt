-- ===== src/Imex/Security.antt =====
-- backend/domain-imex/src/security.rs: checks of uploaded archives, and of cells written to CSV.
pub mod Checked
use codenexus.Prelude.{
  ℕ, ◌==◌, Bool, false, ◌&&◌, ◌||◌, List, [], ◌∷◌, Text, starts_with, trim_start_matches,
  is_whitespace, ltb, if◌then◌else◌,
}

pub data SecurityError : Type 0 where
  path_traversal symlink_detected : Text → SecurityError
  file_too_large : Text → ℕ → ℕ → SecurityError
  too_many_files archive_too_large : ℕ → ℕ → SecurityError

-- `Result<(), SecurityError>`
pub data Validated : Type 0 where
  ok : Validated
  err : SecurityError → Validated

abbrev pub max_file_size : ℕ
max_file_size = 10_000_000

abbrev pub max_archive_entries : ℕ
max_archive_entries = 500

abbrev pub max_archive_size : ℕ
max_archive_size = 50_000_000

-- `path.contains("..")`
unfoldable pub contains_dots : Text → Bool
contains_dots [] = false
contains_dots (c ∷ s) = ((c == b'.') && starts_with b'.' s) || contains_dots s

unfoldable pub validate_zip_entry : Text → ℕ → Bool → Validated
validate_zip_entry path size is_symlink =
    if contains_dots path
    then err (path_traversal path)
    else if starts_with b'/' path || starts_with 92 path
    then err (path_traversal path)
    else if is_symlink
    then err (symlink_detected path)
    else if ltb max_file_size size
    then err (file_too_large path size max_file_size)
    else ok

unfoldable pub validate_zip_archive : ℕ → ℕ → Validated
validate_zip_archive entry_count total_raw_size =
    if ltb max_archive_entries entry_count
    then err (too_many_files entry_count max_archive_entries)
    else if ltb max_archive_size total_raw_size
    then err (archive_too_large total_raw_size max_archive_size)
    else ok

unfoldable pub is_formula_prefix : ℕ → Bool
is_formula_prefix c = (c == b'=') || (c == b'+') || (c == b'-') || (c == b'@') || (c == 9)

unfoldable pub sanitize_csv_cell : Text → Text
sanitize_csv_cell value =
    trim_start_matches is_formula_prefix (trim_start_matches is_whitespace value)
