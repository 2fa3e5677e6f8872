-- ===== src/Tests/Gateway.antt =====
-- The feature gateway on concrete inputs, over tables that are functions.
mod Reads
mod Writes
mod Routes
use mathlib.Core.Option.{some-injective}
use codenexus.Prelude.{
  ℤ, pos, ◌≡◌, refl, sym, ap, Bool, true, false, Option, none, some, List, [], Text, codes, text_eq,
  if◌then◌else◌,
}
use codenexus.Gateway.Models.{FeatureSource, ResolvedFeature, default}
use codenexus.Gateway.Store.{FlagStore, same_row}
use codenexus.Gateway.Service.{Service, Cache}

pub record Tables : Type 0 where
  pub flags : Text → Text → Option ℤ → Option Bool
  pub defaults : Text → Option Bool

abbrev write : Tables → Text → Text → Option ℤ → Option Bool → Tables
write t s c i row = record t {
  flags = λ s' c' i'. if same_row s c i s' c' i' then row else t.flags s' c' i';
}

-- Every write is taken.
abbrev pub tables : FlagStore
tables = record {
  Db = Tables;
  flag = λ t. t.flags;
  registry = λ t. t.defaults;
  upsert = λ t s c i e. some (write t s c i (some e));
  remove = λ t s c i. write t s c i none;
  flag-upsert = λ t t' s c i e h s' c' i'. sym (ap (λ u. u.flags s' c' i') (some-injective _ _ h));
  registry-upsert = λ t t' s c i e h s'. sym (ap (λ u. u.defaults s') (some-injective _ _ h));
  flag-remove = λ t s c i s' c' i'. refl;
  registry-remove = λ t s c i s'. refl;
}

-- One registered feature, which is on, and which grade 3 has off.
abbrev pub school : Tables
school = record {
  flags = λ s c i.
      if same_row (codes "hints") (codes "grade") (some (pos 3)) s c i then some false else none;
  defaults = λ s. if text_eq s (codes "hints") then some true else none;
}

abbrev pub empty_cache : Cache
empty_cache k = none

abbrev pub fresh : Service Tables
fresh = record { db = school; cache = empty_cache; enabled = true; faults = [] }

abbrev pub switched_off : Service Tables
switched_off = record fresh { enabled = false }
