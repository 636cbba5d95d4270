-- ===== src/Ramfs/Lookup.antt =====
-- ramfs_lookup and ramfs_file_at of kernel/ramfs.c agree on the table of files.
use glass_os.Prelude.{
  ℕ, zero, suc, ◌<◌, ◌≡◌, ◌≢◌, refl, sym, ap, ◌∙◌, ◌⊎◌, inl, inr, none, some, Option-cases,
  Bool-cases, true, List, [], ◌∷◌, get_elem?, length, arith,
}
use glass_os.Text.{Text, text_equal}
use glass_os.Text.Equal.{text_equal-eq, text_equal_refl}
use glass_os.Kernel.{Kernel}
use glass_os.Ramfs.{RamfsFile, files, find_file, ramfs_lookup, ramfs_file_at}

find_file-some :
    (path : Text) (fs : List RamfsFile) {f : RamfsFile}
    → find_file path fs ≡ some f
    → (f.path ≡ path) × ((i : ℕ) × (i < length fs) × (get_elem? fs i ≡ some f))
unfolding find_file
find_file-some path [] h = cc
find_file-some path (x ∷ fs) {f} h = elim (Bool-cases (text_equal x.path path)) [
  | inl e ↦
      let here : x ≡ f = ground arith in
      (sym (ap (λ y. y.path) here) ∙ text_equal-eq x.path path e, (0, omega arith, ap some here))
  | inr e ↦
      let (same, (i, low, at_i)) = find_file-some path fs {f = f} (ground arith) in
      (same, (suc i, omega arith, at_i))
]

find_file-none :
    (path : Text) (fs : List RamfsFile) (i : ℕ) {f : RamfsFile}
    → find_file path fs ≡ none
    → get_elem? fs i ≡ some f
    → f.path ≢ path
unfolding find_file
find_file-none path [] i h at_i = cc
find_file-none path (x ∷ fs) zero {f} h at_i = λ same.
    let here : x ≡ f = ground arith in
    let equal : text_equal x.path path ≡ true =
      rw (ap (λ y. y.path) here ∙ same) (text_equal_refl path) in
    absurd (ground (arith, equal, h))
find_file-none path (x ∷ fs) (suc i) {f} h at_i =
    find_file-none path fs i {f = f} (ground arith) at_i

module _ (path : Text) (k : Kernel) where
  lookup_found : {f : RamfsFile} → find_file path files ≡ some f → (ramfs_lookup path k).0 ≡ some f
  unfolding ramfs_lookup
  lookup_found h = rw (ramfs_lookup, h) refl

  lookup_missing : find_file path files ≡ none → (ramfs_lookup path k).0 ≡ none
  unfolding ramfs_lookup
  lookup_missing h = rw (ramfs_lookup, h) refl

  -- ramfs_lookup returns a file that ramfs_file_at lists and whose path is the given one, or null,
  -- and then no file that ramfs_file_at lists has that path.
  pub ramfs_lookup_lem :
      ((f : RamfsFile) × ((ramfs_lookup path k).0 ≡ some f)
        × (f.path ≡ path)
        × ((i : ℕ) × (ramfs_file_at i ≡ some f)))
      ⊎ (((ramfs_lookup path k).0 ≡ none)
          × ((i : ℕ) (f : RamfsFile) → ramfs_file_at i ≡ some f → f.path ≢ path))
  unfolding ramfs_file_at
  ramfs_lookup_lem = elim (Option-cases (find_file path files)) [
    | inr (f, h) ↦
        let (same, (i, low, at_i)) = find_file-some path files {f = f} h in
        inl (f, lookup_found {f = f} h, same, (i, ground (arith, low, at_i)))
    | inl h ↦
        inr (lookup_missing h, λ i f at_i. find_file-none path files i {f = f} h (ground arith))
  ]
