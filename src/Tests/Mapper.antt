-- ===== src/Tests/Mapper.antt =====
-- The values of migrated rows on concrete inputs.
use codenexus.Prelude.{
  ℕ, ◌≡◌, refl, ℤ, pos, Bool, ◌&&◌, Option, none, some, Text, codes, text_eq, leb, decimal,
  display_int, to_lowercase, ascii_lower, if◌then◌else◌,
}
use codenexus.Submissions.Status.{is_terminal_status}
use codenexus.Migration.Mapper.{generate_slug, map_status_verdict, parse_extra_config}
use codenexus.Migration.Mapper.Slugs.{generate_slug-injective}
use codenexus.Migration.Mapper.Fits.{has_verdict, map_status_verdict-terminal}

abbrev is_letter : ℕ → Bool
is_letter c = leb b'a' c && leb c b'z'

hello_slug :
    generate_slug to_lowercase is_letter (codes "Hello,  World!") (pos 7) ≡ codes "hello-world-7"
unfolding generate_slug to_lowercase ascii_lower decimal display_int
hello_slug = refl

defaults_without_json : parse_extra_config (λ t. none) (some (codes "{")) ≡ (1000, 256_000)
unfolding parse_extra_config text_eq
defaults_without_json = refl

abbrev limits : Text → Option ℤ
limits name = if text_eq name (codes "memory_limit") then some (pos 256) else none

memory_in_kilobytes : parse_extra_config (λ t. some limits) (some (codes "{}")) ≡ (1000, 262_144)
unfolding parse_extra_config text_eq
memory_in_kilobytes = refl

same_slug :
    generate_slug to_lowercase is_letter (codes "Hello") (pos 7)
    ≡ generate_slug to_lowercase is_letter (codes "hello") (pos 7)
unfolding generate_slug to_lowercase ascii_lower
same_slug = refl

abbrev seven : ℕ
seven = 7

generate_slug-injective_example : seven ≡ seven
generate_slug-injective_example =
    generate_slug-injective to_lowercase is_letter (codes "Hello") (codes "hello") seven seven
      same_slug

map_status_verdict-terminal_example :
    is_terminal_status (map_status_verdict (some (codes "Compile Error"))).0
    ≡ has_verdict (map_status_verdict (some (codes "Compile Error"))).1
map_status_verdict-terminal_example = map_status_verdict-terminal (some (codes "Compile Error"))
