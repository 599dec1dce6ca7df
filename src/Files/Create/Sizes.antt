-- ===== src/Files/Create/Sizes.antt =====
-- The number of parts of an upload.
use native.Mathlib.Nat.{div-add-mod', mod-lt}
use s3gator.Base.{ℕ, zero, suc, ◌+◌, ◌-◌, ◌*◌, ◌/◌, ◌%◌, ◌≤◌, ◌<◌, max, arith, ◌≡◌}
use s3gator.Files.Create.{parts_for}

quotient-IsCover :
    (file_size part_size q r : ℕ)
    → q * part_size + r ≡ file_size + (part_size - 1)
    → r < part_size
    → 0 < file_size
    → (file_size ≤ max 1 q * part_size) × ((max 1 q - 1) * part_size < file_size)
quotient-IsCover file_size part_size zero r e h g = omega arith
quotient-IsCover file_size part_size (suc k) r e h g =
    rw (max_suc, suc_sub) (omega (arith, e), omega (arith, e))
  where
    max_suc : max 1 (suc k) ≡ suc k
    max_suc = omega arith

    suc_sub : suc k - 1 ≡ k
    suc_sub = omega arith

-- A file that is not empty is covered by its parts, and without the last one it is not.
pub parts_for-IsCover :
    (file_size part_size : ℕ)
    → 0 < file_size
    → 0 < part_size
    → (file_size ≤ parts_for file_size part_size * part_size)
      × ((parts_for file_size part_size - 1) * part_size < file_size)
unfolding parts_for
parts_for-IsCover file_size part_size h g = rw max_one (
    quotient-IsCover file_size part_size ((file_size + (part_size - 1)) / part_size)
      ((file_size + (part_size - 1)) % part_size)
      (div-add-mod' (file_size + (part_size - 1)) part_size)
      (mod-lt (file_size + (part_size - 1)) g) h)
  where
    max_one : max part_size 1 ≡ part_size
    max_one = omega arith
