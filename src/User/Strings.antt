-- ===== src/User/Strings.antt =====
-- copy_user_string of kernel/user.c against the bytes of the code page.
use glass_os.Prelude.{
  ℕ, zero, suc, ◌+◌, ◌-◌, ◌≤◌, ◌<◌, ◌≡◌, ◌≢◌, refl, sym, ◌⊎◌, inl, inr, Option, none, some,
  Option-cases, Bool-cases, [], ◌∷◌, length, ltb, leb, ◌==◌, arith, lt→ltb, min, subst,
}
use mathlib.Core.Option
use glass_os.Text.{Text}
use glass_os.Memory.{page_size}
use glass_os.User.{user_code_va, scan_user, copy_user_string}

-- The bytes from an address on are those of the text and then a NUL, and all but the NUL are not NUL.
abbrev pub Holds : (ℕ → ℕ) → ℕ → Text → Type 0
Holds byte address [] = byte address ≡ 0
Holds byte address (c ∷ cs) = (byte address ≡ c) × (c ≢ 0) × Holds byte (address + 1) cs

-- There is no NUL among so many bytes.
abbrev pub NoNul : (ℕ → ℕ) → ℕ → ℕ → Type 0
NoNul byte address n = (i : ℕ) → i < n → byte (address + i) ≢ 0

some-injective {ℓ} : {A : Type ℓ} {a b : A} → some a ≡ some b → a ≡ b
some-injective h = cc

map-some :
    (c : ℕ) (o : Option Text) (s : Text)
    → Option.map (λ cs. c ∷ cs) o ≡ some s
    → (t : Text) × (o ≡ some t) × (s ≡ c ∷ t)
map-some c none s h = absurd (cc)
map-some c (some t) s h = (t, refl, sym (some-injective h))

scan_user-some :
    (byte : ℕ → ℕ) (rounds address : ℕ) (s : Text)
    → scan_user byte rounds address ≡ some s
    → Holds byte address s × (length s < rounds) × (address + length s < user_code_va + page_size)
unfolding scan_user
scan_user-some byte zero address s h = absurd (cc)
scan_user-some byte (suc rounds) address s h =
    elim (Bool-cases (ltb address (user_code_va + page_size))) [
      | inr out ↦ absurd (none-some (rw out at h))
      | inl inside ↦ elim (Bool-cases (byte address == 0)) [
        | inl nul ↦
            let e : s ≡ [] = sym (some-injective (rw (inside, nul) at h)) in
            rw e (ground (arith, nul), omega arith, ground (arith, inside))
        | inr letter ↦
            let (t, found, e) =
              map-some (byte address) (scan_user byte rounds (address + 1)) s
                (rw (inside, letter) at h) in
            let (holds, fits, below) = scan_user-some byte rounds (address + 1) t found in
            rw e ((refl, ground (arith, letter), holds), omega arith, omega (arith, below))
      ]
    ]
  where
    none-some : {t : Text} → none ≡ some t → ⊥
    none-some e = cc

some-none : {s : Text} → some s ≡ none → ⊥
some-none e = cc

map-none : (c : ℕ) (o : Option Text) → Option.map (λ cs. c ∷ cs) o ≡ none → o ≡ none
map-none c none h = refl
map-none c (some t) h = absurd (some-none h)

scan_user_step :
    (byte : ℕ → ℕ) (rounds address : ℕ)
    → scan_user byte (suc rounds) address ≡ none
    → address < user_code_va + page_size
    → (byte address ≢ 0) × (scan_user byte rounds (address + 1) ≡ none)
unfolding scan_user
scan_user_step byte rounds address h page = elim (Bool-cases (byte address == 0)) [
  | inl nul ↦ absurd (some-none (rw (lt→ltb _ _ page, nul) at h))
  | inr letter ↦ (
    λ zero_byte. absurd (ground (arith, letter)),
    map-none (byte address) (scan_user byte rounds (address + 1))
        (rw (lt→ltb _ _ page, letter) at h),
  )
]

scan_user-none :
    (byte : ℕ → ℕ) (rounds address n : ℕ)
    → scan_user byte rounds address ≡ none
    → n ≤ rounds
    → address + n ≤ user_code_va + page_size
    → NoNul byte address n
scan_user-none byte zero address n h fits page i lt = absurd (omega arith)
scan_user-none byte (suc rounds) address n h fits page zero lt =
    let (letter, rest) = scan_user_step byte rounds address h (omega arith) in
    subst (λ a. byte a ≢ 0) (omega arith) letter
scan_user-none byte (suc rounds) address n h fits page (suc i) lt =
    let (letter, rest) = scan_user_step byte rounds address h (omega arith) in
    subst (λ a. byte a ≢ 0) (omega arith)
      (scan_user-none byte rounds (address + 1) (n - 1) rest (omega arith) (omega arith) i
        (omega arith))

-- copy_user_string with a buffer of `capacity` bytes. A string that it gives stands at the address,
-- with its NUL, inside of the code page, and fits the buffer with its NUL. It refuses only where the
-- buffer is empty, or the address lies outside of the code page, or no NUL stands in the bytes that
-- are left of the page and fit the buffer beside its own NUL.
pub copy_user_string_lem :
    (byte : ℕ → ℕ) (address capacity : ℕ)
    → ((s : Text) × (copy_user_string byte address capacity ≡ some s)
        × Holds byte address s
        × (length s < capacity)
        × (user_code_va ≤ address)
        × (address + length s < user_code_va + page_size))
      ⊎ ((copy_user_string byte address capacity ≡ none)
          × ((capacity ≡ 0)
              ⊎ ((address < user_code_va)
                  ⊎ ((user_code_va + page_size ≤ address)
                      ⊎ NoNul byte address
                          (min (capacity - 1) (user_code_va + page_size - address))))))
unfolding copy_user_string
copy_user_string_lem byte address capacity = elim (Bool-cases (capacity == 0)) [
  | inl empty ↦ inr (rw empty refl, inl (ground (arith, empty)))
  | inr room ↦ elim (Bool-cases (ltb address user_code_va)) [
    | inl low ↦ inr (rw (room, low) refl, inr (inl (ground (arith, low))))
    | inr from ↦ elim (Bool-cases (leb (user_code_va + page_size) address)) [
      | inl high ↦ inr (rw (room, from, high) refl, inr (inr (inl (ground (arith, high)))))
      | inr inside ↦ elim (Option-cases (scan_user byte (capacity - 1) address)) [
        | inl e ↦ inr (
          rw (room, from, inside) e,
          inr (
              inr (
                inr (
                  scan_user-none byte (capacity - 1) address _ e (omega arith)
                    (ground (arith, inside))))),
        )
        | inr (s, e) ↦
            let (holds, fits, below) = scan_user-some byte (capacity - 1) address s e in
            inl (
              s,
              rw (room, from, inside) e,
              holds,
              ground (arith, room, fits),
              ground (arith, from),
              below,
            )
      ]
    ]
  ]
]
