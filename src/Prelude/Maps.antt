-- ===== src/Prelude/Maps.antt =====
-- Go maps with text keys, as functions: a missing key is `none`.
use mathlib.Core.Path.{◌≡◌}
use mathlib.Core.Option.{Option, none}
use noctifab.Prelude.Tests.{if◌then◌else◌}
use noctifab.Prelude.Text.{Text, text_eq, text_eq_self}

module _ {ℓ} {V : Type ℓ} where
  -- `m[k] = v`.
  abbrev pub insert : Text → V → (Text → V) → Text → V
  insert k v m j = if text_eq k j then v else m j

  pub insert_self : (k : Text) (v : V) (m : Text → V) → insert k v m k ≡ v
  insert_self k v m = rw (text_eq_self k)

abbrev pub Map {ℓ} : Type ℓ → Type ℓ
Map V = Text → Option V

abbrev pub empty_map {ℓ} : {V : Type ℓ} → Map V
empty_map k = none
