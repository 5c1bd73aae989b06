-- ===== src/FdMap.antt =====
-- `std::unordered_map` and `std::map` with a number as the key, as lists of entries.
use zrh_rtsp_server.Prelude.{ℕ, ◌≡◌, Option, none, some, List, [], ◌∷◌, ◌==◌, if◌then◌else◌, arith}

-- `erase` and `find`.
unfoldable pub erase_fd {ℓ} : {A : Type ℓ} → ℕ → List (ℕ × A) → List (ℕ × A)
erase_fd fd [] = []
erase_fd fd ((key, a) ∷ rest) = if key == fd then erase_fd fd rest else (key, a) ∷ erase_fd fd rest

unfoldable pub find_fd {ℓ} : {A : Type ℓ} → ℕ → List (ℕ × A) → Option A
find_fd fd [] = none
find_fd fd ((key, a) ∷ rest) = if key == fd then some a else find_fd fd rest

-- `m[fd] = a`.
abbrev pub set_fd {ℓ} : {A : Type ℓ} → ℕ → A → List (ℕ × A) → List (ℕ × A)
set_fd fd a entries = (fd, a) ∷ erase_fd fd entries

module _ {A : Type 0} where
  pub find-erase_fd :
      (fd other : ℕ) (entries : List (ℕ × A))
      → find_fd other (erase_fd fd entries) ≡ (if other == fd then none else find_fd other entries)
  unfolding find_fd erase_fd
  find-erase_fd fd other [] = ground arith
  find-erase_fd fd other ((key, a) ∷ rest) = ground (arith, find-erase_fd fd other rest)

  pub find-set_fd :
      (fd other : ℕ) (a : A) (entries : List (ℕ × A))
      → find_fd other (set_fd fd a entries)
        ≡ (if other == fd then some a else find_fd other entries)
  unfolding find_fd
  find-set_fd fd other a entries = ground (arith, find-erase_fd fd other entries)
