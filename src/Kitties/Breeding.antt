-- ===== src/Kitties/Breeding.antt =====
-- The dna of a kitty of the pallet (`pallets/kitties/src/lib.rs`), and the loop of `breed_kitty`.
use my_substrate_kitties.Base.{
  ℕ, zero, suc, ◌+◌, ◌<◌, ◌≡◌, refl, ap, List, [], ◌∷◌, arith, length, get_or, All,
}
use my_substrate_kitties.Base.Bits.{bit_or_comm, bit_and-bit_or, bit_and-le}
use Prim.Native.Nat.{bit_and, bit_or}
use my_substrate_kitties.Kitties.Helpers.{breed_dna}

-- A `[u8; 16]`.
abbrev pub IsDna : List ℕ → Type 0
IsDna dna = (length dna ≡ 16) × All (λ x. x < 256) dna

-- Byte `j` of a child takes the bits that the selector picks out of those of both parents, for every
-- byte that the loop reaches.
pub get_or-breed_dna :
    (n i j : ℕ) (selector a b : List ℕ)
    → j < n
    → get_or (breed_dna n i selector a b) j 0
      ≡ bit_and (get_or selector (i + j) 0) (bit_or (get_or a (i + j) 0) (get_or b (i + j) 0))
unfolding breed_dna
get_or-breed_dna zero i j selector a b h = absurd (omega arith)
get_or-breed_dna (suc n) i zero selector a b h =
    let e : i + 0 ≡ i = omega arith in
    rw e (bit_and-bit_or (get_or selector i 0) (get_or a i 0) (get_or b i 0))
get_or-breed_dna (suc n) i (suc j) selector a b h =
    let e : i + suc j ≡ i + 1 + j = omega arith in
    rw e (get_or-breed_dna n (i + 1) j selector a b (omega arith))

-- The parents' order does not matter for the child's dna.
pub breed_dna_comm :
    (n i : ℕ) (selector a b : List ℕ) → breed_dna n i selector a b ≡ breed_dna n i selector b a
unfolding breed_dna
breed_dna_comm zero i selector a b = refl
breed_dna_comm (suc n) i selector a b =
    let byte =
      bit_or_comm (bit_and (get_or selector i 0) (get_or a i 0))
        (bit_and (get_or selector i 0) (get_or b i 0)) in
    rw (byte, breed_dna_comm n (i + 1) selector a b)

get_or-lt : (xs : List ℕ) (j : ℕ) → All (λ x. x < 256) xs → get_or xs j 0 < 256
get_or-lt [] j h = omega arith
get_or-lt (x ∷ xs) zero h = h.0
get_or-lt (x ∷ xs) (suc j) h = get_or-lt xs j h.1

-- The loop makes `n` bytes, each at most the selector's.
breed_dna_bytes :
    (n i : ℕ) (selector a b : List ℕ)
    → All (λ x. x < 256) selector
    → (length (breed_dna n i selector a b) ≡ n) × All (λ x. x < 256) (breed_dna n i selector a b)
unfolding breed_dna
breed_dna_bytes zero i selector a b h = (refl, tt)
breed_dna_bytes (suc n) i selector a b h =
    let rest = breed_dna_bytes n (i + 1) selector a b h in
    let s = get_or selector i 0 in
    (
      ap suc rest.0,
      (
        omega (
          arith,
          bit_and-bit_or s (get_or a i 0) (get_or b i 0),
          bit_and-le s (bit_or (get_or a i 0) (get_or b i 0)),
          get_or-lt selector i h,
        ),
        rest.1,
      ),
    )

pub breed_dna-IsDna : (selector a b : List ℕ) → IsDna selector → IsDna (breed_dna 16 0 selector a b)
breed_dna-IsDna selector a b h = breed_dna_bytes 16 0 selector a b h.1
