-- ===== src/Imex/Security/Checked.antt =====
-- What passes the checks of security.rs.
use mathlib.Core.List.{append_assoc}
use codenexus.Prelude.{
  ℕ, ◌==◌, ◌≤◌, ◌≡◌, refl, sym, ap, ◌∙◌, inl, inr, ◌↔◌, Bool, true, false, ◌&&◌, ◌||◌, [], ◌∷◌,
  ◌++◌, arith, All, All-append, ==_iff, both_true, Text, starts_with, trim_start_matches,
  is_whitespace, Bool-cases,
}
use codenexus.Imex.Security.{
  ok, max_file_size, contains_dots, validate_zip_entry, is_formula_prefix, sanitize_csv_cell,
}

-- Two dots in a row stand nowhere in the path.
abbrev pub HasDots : Text → Type 0
HasDots path = (before : Text) × (after : Text) × (path ≡ before ++ b'.' ∷ b'.' ∷ after)

starts-dots : (s : Text) → starts_with b'.' s ≡ true → (after : Text) × (s ≡ b'.' ∷ after)
unfolding starts_with
starts-dots [] h = cc
starts-dots (c ∷ s) h = (s, ground arith)

contains_dots→ : (path : Text) → contains_dots path ≡ true → HasDots path
unfolding contains_dots
contains_dots→ [] h = cc
contains_dots→ (c ∷ s) h = elim (Bool-cases (contains_dots s)) [
  | inl e ↦ let (before, after, q) = contains_dots→ s e in (c ∷ before, after, cc)
  | inr e ↦
      let both : ((c == b'.') && starts_with b'.' s) ≡ true = ground arith in
      let (dot, next) = both_true (c == b'.') (starts_with b'.' s) both in
      let (after, q) = starts-dots s next in ([], after, rw ((==_iff c b'.').0 dot, q) refl)
]

or_true : (b : Bool) → (b || true) ≡ true
or_true true = refl
or_true false = refl

→contains_dots : (before after : Text) → contains_dots (before ++ b'.' ∷ b'.' ∷ after) ≡ true
unfolding contains_dots starts_with
→contains_dots [] after = refl
→contains_dots (c ∷ before) after = rw (→contains_dots before after) (or_true _)

contains_dots_iff : (path : Text) → (contains_dots path ≡ true) ↔ HasDots path
contains_dots_iff path =
    (contains_dots→ path, λ (before, after, e). rw e (→contains_dots before after))

starts_with-slash :
    (c : ℕ) (path : Text) → starts_with c path ≡ true → (rest : Text) × (path ≡ c ∷ rest)
unfolding starts_with
starts_with-slash c [] h = cc
starts_with-slash c (x ∷ s) h = (s, rw ((==_iff x c).0 h) refl)

abbrev pub StartsWith : ℕ → Text → Type 0
StartsWith c path = (rest : Text) × (path ≡ c ∷ rest)

-- A path that leads nowhere outside, of a regular file of at most 10 MB.
abbrev pub Harmless : Text → ℕ → Bool → Type 0
Harmless path size is_symlink =
    (HasDots path → ⊥)
    × (StartsWith b'/' path → ⊥)
    × (StartsWith 92 path → ⊥)
    × (is_symlink ≡ false)
    × (size ≤ max_file_size)

starts_with_iff : (c : ℕ) (path : Text) → (starts_with c path ≡ true) ↔ StartsWith c path
unfolding starts_with
starts_with_iff c path = (starts_with-slash c path, λ (rest, e). rw e ((==_iff c c).1 refl))

-- validate_zip_entry accepts an entry exactly if its path has no two dots in a row and begins with
-- neither slash nor backslash, it is no symbolic link, and its size is at most 10 MB.
pub validate_zip_entry_iff :
    (path : Text) (size : ℕ) (is_symlink : Bool)
    → (validate_zip_entry path size is_symlink ≡ ok) ↔ Harmless path size is_symlink
unfolding validate_zip_entry
validate_zip_entry_iff path size is_symlink =
    ground (arith, contains_dots_iff path, starts_with_iff b'/' path, starts_with_iff 92 path)

-- Does a predicate hold of the first code point?
abbrev pub begins : (ℕ → Bool) → Text → Bool
begins p [] = false
begins p (c ∷ s) = p c

trimmed : (p : ℕ → Bool) (s : Text) → begins p (trim_start_matches p s) ≡ false
unfolding trim_start_matches
trimmed p [] = refl
trimmed p (x ∷ s) = elim (Bool-cases (p x)) [ inl e ↦ rw e (trimmed p s) | inr e ↦ rw e e ]

-- What is taken away.
dropped :
    (p : ℕ → Bool) (s : Text)
    → (front : Text) × (s ≡ front ++ trim_start_matches p s) × All (λ c. p c ≡ true) front
unfolding trim_start_matches
dropped p [] = ([], refl, tt)
dropped p (x ∷ s) = elim (Bool-cases (p x)) [
  | inl e ↦ let (front, q, a) = dropped p s in (x ∷ front, rw e (ap (λ t. x ∷ t) q), (e, a))
  | inr e ↦ ([], rw e refl, tt)
]

All-weaken :
    (p q : ℕ → Bool) (s : Text)
    → ((c : ℕ) → p c ≡ true → q c ≡ true)
    → All (λ c. p c ≡ true) s
    → All (λ c. q c ≡ true) s
All-weaken p q [] w a = tt
All-weaken p q (c ∷ s) w a = (w c a.0, All-weaken p q s w a.1)

-- sanitize_csv_cell gives a text that begins with no formula character, and takes away only white
-- space and formula characters in front.
pub sanitize_csv_cell_lem :
    (value : Text)
    → (begins is_formula_prefix (sanitize_csv_cell value) ≡ false)
      × ((front : Text) × (value ≡ front ++ sanitize_csv_cell value)
          × All (λ c. (is_whitespace c || is_formula_prefix c) ≡ true) front)
unfolding sanitize_csv_cell
sanitize_csv_cell_lem value =
    let inner = trim_start_matches is_whitespace value in
    let (a, e, p) = dropped is_whitespace value in
    let (b, f, q) = dropped is_formula_prefix inner in
    (
      trimmed is_formula_prefix inner,
      (
        a ++ b,
        e ∙ ap (λ t. a ++ t) f ∙ sym (append_assoc a b _),
        All-append _ a b
            (All-weaken is_whitespace (λ c. is_whitespace c || is_formula_prefix c) a
              (λ c h. rw h refl) p)
            (All-weaken is_formula_prefix (λ c. is_whitespace c || is_formula_prefix c) b
              (λ c h. rw h (or_true (is_whitespace c))) q),
      ),
    )
