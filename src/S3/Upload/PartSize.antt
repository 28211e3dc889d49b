-- ===== src/S3/Upload/PartSize.antt =====
-- The part size of an upload.
use native.Mathlib.Nat.{
  lt-div-mul-add, div-mul-le_self, lt-mul-div-succ, mul-le-mul_left, mod-eq_of_lt,
}
use haybarn_httpfs.Base.{ℕ, ◌+◌, ◌-◌, ◌*◌, ◌/◌, ◌%◌, ◌≤◌, ◌<◌, max, ◌≡◌, refl, ap, ◌∙◌, arith}
use haybarn_httpfs.Http.Types.{word}
use haybarn_httpfs.S3.Upload.{S3ConfigParams, part_size_for}

-- Rounding up to a multiple.
round_up-le : (n block : ℕ) → 0 < block → n ≤ (n + block - 1) / block * block
round_up-le n block h = omega (arith, lt-div-mul-add {a = n + block - 1} {b = block} h)

round_up-lt : (n block : ℕ) → 0 < block → (n + block - 1) / block * block < n + block
round_up-lt n block h = omega (arith, div-mul-le_self (n + block - 1) block)

-- Sums and products in idx_t that stay below 2 ^ 64 are exact.
part_size_for-exact :
    (block_size : ℕ) (c : S3ConfigParams)
    → 0 < block_size
    → max 5242880 (c.max_file_size / c.max_parts_per_file) + block_size ≤ word
    → part_size_for block_size c
      ≡ (max 5242880 (c.max_file_size / c.max_parts_per_file) + block_size - 1)
        / block_size
        * block_size
unfolding part_size_for
part_size_for-exact block_size c some_block small =
    let minimum = max 5242880 (c.max_file_size / c.max_parts_per_file) in
    let added : ((minimum + block_size) % word + word - 1) % word ≡ minimum + block_size - 1 =
      omega arith in
    let below = div-mul-le_self (minimum + block_size - 1) block_size in
    ap (λ n. n / block_size * block_size % word) added ∙ mod-eq_of_lt (omega arith)

suc_le :
    (required block_size : ℕ) (c : S3ConfigParams)
    → 0 < block_size
    → required ≡ c.max_file_size / c.max_parts_per_file
    → max 5242880 (c.max_file_size / c.max_parts_per_file) + block_size ≤ word
    → required + 1 ≤ part_size_for block_size c + 1
suc_le required block_size c some_block e small = omega (
  arith,
  round_up-le (max 5242880 required) block_size some_block,
  part_size_for-exact block_size c some_block small,
)

-- The parts of an upload: at least the smallest part that S3 takes, less than a block above what is
-- needed, and as many as the configuration allows hold the largest file up to fewer bytes than there
-- are parts. The block size and the number of parts are not zero, and the size that is needed and a
-- block are together at most 2 ^ 64.
pub part_size_for-covers :
    (block_size : ℕ) (c : S3ConfigParams)
    → 0 < block_size
    → 0 < c.max_parts_per_file
    → max 5242880 (c.max_file_size / c.max_parts_per_file) + block_size ≤ word
    → (5242880 ≤ part_size_for block_size c)
      × (part_size_for block_size c
          < max 5242880 (c.max_file_size / c.max_parts_per_file) + block_size)
      × (c.max_file_size < c.max_parts_per_file * (part_size_for block_size c + 1))
part_size_for-covers block_size c some_block some_parts small =
    let required = c.max_file_size / c.max_parts_per_file in
    let exact = part_size_for-exact block_size c some_block small in
    let lower = round_up-le (max 5242880 required) block_size some_block in
    let upper = round_up-lt (max 5242880 required) block_size some_block in
    let covers = lt-mul-div-succ c.max_file_size some_parts in
    let enough =
      mul-le-mul_left c.max_parts_per_file (suc_le required block_size c some_block refl small) in
    (omega arith, omega arith, omega arith)
