-- ===== src/Ramfs/Read.antt =====
-- ramfs_read and ramfs_lookup of kernel/ramfs.c against the contents of the files.
use glass_os.Prelude.{
  ℕ, zero, suc, ◌+◌, ◌-◌, ◌≤◌, ◌<◌, ◌≡◌, refl, ap, sym, ◌∙◌, inl, inr, Bool-cases, List, [], ◌∷◌,
  ◌++◌, append_assoc, length, take, drop, set, get_or, min, ltb, leb, arith, if◌then◌else◌,
  length-set, take-append-drop,
}
use glass_os.Ramfs.{RamfsFile, size, copy_bytes, ramfs_read}

module _ {ℓ} {A : Type ℓ} where
  take-set :
      (xs : List A) (i : ℕ) (v : A)
      → i < length xs
      → take (i + 1) (set xs i v) ≡ take i xs ++ v ∷ []
  take-set [] i v h = absurd (omega arith)
  take-set (x ∷ xs) zero v h = refl
  take-set (x ∷ xs) (suc i) v h =
      let shift : suc i + 1 ≡ suc (i + 1) = omega arith in
      rw shift (ap (λ r. x ∷ r) (take-set xs i v (omega arith)))

  drop-set : (xs : List A) (i n : ℕ) (v : A) → i < n → drop n (set xs i v) ≡ drop n xs
  drop-set [] i n v h = refl
  drop-set (x ∷ xs) i zero v h = absurd (omega arith)
  drop-set (x ∷ xs) zero (suc n) v h = refl
  drop-set (x ∷ xs) (suc i) (suc n) v h = drop-set xs i n v (omega arith)

  take-drop-suc :
      (xs : List A) (n r : ℕ) (d : A)
      → n < length xs
      → take (suc r) (drop n xs) ≡ get_or xs n d ∷ take r (drop (n + 1) xs)
  take-drop-suc [] n r d h = absurd (omega arith)
  take-drop-suc (x ∷ xs) zero r d h = refl
  take-drop-suc (x ∷ xs) (suc n) r d h =
      let shift : suc n + 1 ≡ suc (n + 1) = omega arith in
      rw shift (take-drop-suc xs n r d (omega arith))

copy_bytes_lem :
    (rounds i offset : ℕ) (source destination : List ℕ)
    → i + rounds ≤ length destination
    → offset + i + rounds ≤ length source
    → copy_bytes rounds i offset source destination
      ≡ take i destination
        ++ (take rounds (drop (offset + i) source) ++ drop (i + rounds) destination)
unfolding copy_bytes
copy_bytes_lem zero i offset source destination room there =
    let whole : i + 0 ≡ i = omega arith in rw whole (sym (take-append-drop i destination))
copy_bytes_lem (suc rounds) i offset source destination room there =
    let v = get_or source (offset + i) 0 in
    let i1 : i + suc rounds ≡ i + 1 + rounds = omega arith in
    let o1 : offset + (i + 1) ≡ offset + i + 1 = omega arith in
    copy_bytes_lem rounds (i + 1) offset source (set destination i v)
      (omega (arith, length-set destination i v)) (omega arith)
    ∙ rw
        (
          take-set destination i v (omega arith),
          drop-set destination i (i + 1 + rounds) v (omega arith),
          take-drop-suc source (offset + i) rounds 0 (omega arith),
          i1,
          o1,
          append_assoc,
        )
        refl

-- ramfs_read copies the bytes of the file from the offset on, as many as there are and the given
-- size allows, over the start of the buffer, keeps the rest of the buffer, and returns their number,
-- if the buffer has the given size.
pub ramfs_read_lem :
    (file : RamfsFile) (offset : ℕ) (buffer : List ℕ) (buffer_size : ℕ)
    → buffer_size ≤ length buffer
    → let bytes = min buffer_size (size file - offset) in
      ramfs_read file offset buffer buffer_size
      ≡ (bytes, take bytes (drop offset file.data_bytes) ++ drop bytes buffer)
unfolding ramfs_read
ramfs_read_lem file offset buffer buffer_size room = elim (Bool-cases (leb (size file) offset)) [
  | inl h ↦
      let nothing : min buffer_size (size file - offset) ≡ 0 = ground arith in rw (h, nothing) refl
  | inr h ↦
      let amount : (if ltb buffer_size (size file - offset)
            then buffer_size
            else size file - offset)
          ≡ min buffer_size (size file - offset) =
        ground arith in
      let start : offset + 0 ≡ offset = omega arith in
      let none_before : 0 + min buffer_size (size file - offset)
          ≡ min buffer_size (size file - offset) =
        omega arith in
      rw (h, amount)
        (ap (λ b. (min buffer_size (size file - offset), b))
          (copy_bytes_lem (min buffer_size (size file - offset)) 0 offset file.data_bytes buffer
              (omega arith) (ground arith)
            ∙ rw (start, none_before) refl))
]
