-- ===== src/Base/Dict.antt =====
-- A JavaScript `Map` with string keys, seen through `get`.
use Prim.Native.String.{String}
use mathlib.Core.Path.{◌≡◌}
use mathlib.Core.Bool.{Bool}
use mathlib.Core.Option.{Option, none, some}
use text.Mathlib.Text.{◌==◌ as str_eq}
use text.Mathlib.TextPositions.{eq_refl}
use s3gator.Base.Tests.{if◌then◌else◌}

abbrev pub Dict : Type 0 → Type 0
Dict V = String → Option V

module _ {V : Type 0} where
  abbrev pub empty : Dict V
  empty k = none

  -- `map.set(k, v)`
  abbrev pub put : String → V → Dict V → Dict V
  put k v m j = if str_eq k j then some v else m j

  -- `map.delete(k)`
  abbrev pub remove : String → Dict V → Dict V
  remove k m j = if str_eq k j then none else m j

  abbrev pub keep_value : (V → Bool) → Option V → Option V
  keep_value p none = none
  keep_value p (some v) = if p v then some v else none

  -- Deletes the entries whose value fails a test.
  abbrev pub retain : (V → Bool) → Dict V → Dict V
  retain p m j = keep_value p (m j)

  pub put_self : (k : String) (v : V) (m : Dict V) → put k v m k ≡ some v
  put_self k v m = simp eq_refl
