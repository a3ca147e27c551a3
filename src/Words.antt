-- ===== src/Words.antt =====
-- 64-bit words as eight little-endian bytes (`binary.LittleEndian`).
use native.Mathlib.Nat.{pow-suc}
use index_provider.Prelude.{
  ℕ, zero, suc, ◌+◌, ◌*◌, ◌/◌, ◌%◌, ◌^◌, ◌<◌, ◌≡◌, ap, List, [], ◌∷◌, arith,
}
use index_provider.Exec.{Result, ok, err, panic}

abbrev pub word_mod : ℕ
word_mod = 256 ^ 8

le_bytes : ℕ → ℕ → List ℕ
le_bytes zero n = []
le_bytes (suc k) n = n % 256 ∷ le_bytes k (n / 256)

le_value : List ℕ → ℕ
le_value [] = 0
le_value (b ∷ bs) = b + 256 * le_value bs

le_value-le_bytes : (k n : ℕ) → n < 256 ^ k → le_value (le_bytes k n) ≡ n
unfolding le_value le_bytes
le_value-le_bytes zero n h = omega arith
le_value-le_bytes (suc k) n h =
    let below : n < 256 ^ k * 256 = rw (← pow-suc 256 k) h in
    omega (arith, le_value-le_bytes k (n / 256) (omega arith))

-- `PutUint64` into a slice of eight bytes.
unfoldable pub put_uint64 : ℕ → List ℕ
unfolding le_bytes
put_uint64 n = le_bytes 8 n

-- `Uint64`, which panics on a slice of fewer than eight bytes and reads the first eight.
unfoldable pub uint64 : List ℕ → Result ℕ
unfolding le_value
uint64 (a ∷ b ∷ c ∷ d ∷ e ∷ f ∷ g ∷ h ∷ rest) = ok (le_value (a ∷ b ∷ c ∷ d ∷ e ∷ f ∷ g ∷ h ∷ []))
uint64 _ = err panic

-- A word that is written is read back.
pub uint64-put_uint64 : (n : ℕ) → n < word_mod → uint64 (put_uint64 n) ≡ ok n
unfolding uint64 put_uint64 le_bytes
uint64-put_uint64 n h = ap ok (le_value-le_bytes 8 n h)
