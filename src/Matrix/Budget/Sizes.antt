-- ===== src/Matrix/Budget/Sizes.antt =====
-- The loop of `sizes` against sums over the files.
use hp_http_server.Common.{
  ℕ, ◌+◌, ◌*◌, ◌≡◌, ◌∙◌, max, Bool, true, false, if◌then◌else◌, List, [], ◌∷◌, map, sum, arith,
}
use hp_http_server.Matrix.Budget.{FileStat, Usage, is_raw, add_sizes, sizes}

abbrev pub raw_size : FileStat → ℕ
raw_size f = if is_raw f then f.size else 0

-- The usage of these three sums.
abbrev pub usage_of : ℕ → ℕ → ℕ → Usage
usage_of logical allocated raw = record {
  logical_bytes = logical;
  allocated_bytes = allocated;
  charged_bytes = max logical allocated;
  raw_bytes = raw;
}

abbrev sums_of : ℕ → ℕ → ℕ → List FileStat → Usage
sums_of logical allocated raw files =
    usage_of (logical + sum (map (λ (f : FileStat). f.size) files))
      (allocated + 512 * sum (map (λ (f : FileStat). f.blocks) files))
      (raw + sum (map raw_size files))

usage_of_eq : {a b c a' b' c' : ℕ} → a ≡ a' → b ≡ b' → c ≡ c' → usage_of a b c ≡ usage_of a' b' c'
usage_of_eq p q r = cc

add_sizes-eq-sum :
    (logical allocated raw : ℕ) (files : List FileStat)
    → add_sizes logical allocated raw files ≡ sums_of logical allocated raw files
unfolding add_sizes
add_sizes-eq-sum logical allocated raw [] = usage_of_eq (omega arith) (omega arith) (omega arith)
add_sizes-eq-sum logical allocated raw (f ∷ files) =
    add_sizes-eq-sum (logical + f.size) (allocated + f.blocks * 512)
      (if is_raw f then raw + f.size else raw) files
    ∙ usage_of_eq (omega arith) (omega arith) (raw_sum (is_raw f) (sum (map raw_size files)))
  where
    raw_sum :
        (b : Bool) (rest : ℕ)
        → (if b then raw + f.size else raw) + rest ≡ raw + ((if b then f.size else 0) + rest)
    raw_sum true rest = omega arith
    raw_sum false rest = omega arith

-- For all files below the root, `sizes` gives the sum of their bytes, 512 times the sum of their
-- blocks, the greater of both, and the sum of the bytes of those files whose suffix is that of a
-- log or of captured output.
pub sizes-eq-sum :
    (files : List FileStat)
    → sizes files
      ≡ usage_of
          (sum (map (λ (f : FileStat). f.size) files))
          (512 * sum (map (λ (f : FileStat). f.blocks) files))
          (sum (map raw_size files))
unfolding sizes
sizes-eq-sum files =
    add_sizes-eq-sum 0 0 0 files ∙ usage_of_eq (omega arith) (omega arith) (omega arith)
