-- ===== src/Dhcpd/BitSet.antt =====
-- internal/dhcpd/bitset.go: the sparse set of offsets. A nil `*bitSet` is `none`.
use Prim.Native.Nat.{bit_or}
use gdns_server.Base.{
  ℕ, ◌/◌, ◌%◌, ◌^◌, ◌≡◌, refl, Bool, false, Option, none, some, [], ◌==◌, if◌then◌else◌, ℕ_discrete,
  arith,
}
use gdns_server.Base.Bits.{bit_clear, test_bit, test_bit-or, test_bit-clear, test_bit-none}
use gdns_server.Base.Dict.{Dict, get, put, get-put}

abbrev bits_per_word : ℕ
bits_per_word = 64

pub record BitSet : Type 0 where
  pub words : Dict ℕ ℕ

unfoldable pub new_bit_set : Option BitSet
new_bit_set = some (record { words = [] })

-- `word := s.words[wordIdx]`: the zero word where there is none.
word_at : Dict ℕ ℕ → ℕ → ℕ
word_at m i = elim (get ℕ_discrete i m) [ none ↦ 0 | some w ↦ w ]

unfoldable pub is_set : Option BitSet → ℕ → Bool
is_set none n = false
is_set (some s) n = elim (get ℕ_discrete (n / bits_per_word) s.words) [
  | none ↦ false
  | some word ↦ test_bit word (n % bits_per_word)
]

unfoldable pub set : Option BitSet → ℕ → Bool → Option BitSet
unfolding word_at
set none n ok = none
set (some s) n ok =
    let word_idx = n / bits_per_word in
    let mask = 2 ^ (n % bits_per_word) in
    let word = word_at s.words word_idx in
    let word' = if ok then bit_or word mask else bit_clear word mask in
    some (record { words = put ℕ_discrete word_idx word' s.words })

word_is_set :
    (s : BitSet) (n : ℕ) → is_set (some s) n ≡ test_bit (word_at s.words (n / 64)) (n % 64)
unfolding is_set word_at
word_is_set s n = ground (arith, test_bit-none (n % 64))

word_at-put :
    (m : Dict ℕ ℕ) (i j w : ℕ)
    → word_at (put ℕ_discrete i w m) j ≡ (if i == j then w else word_at m j)
unfolding word_at
word_at-put m i j w = ground (arith, get-put ℕ_discrete i j w m)

-- After `set(n, ok)` the bit `n` reads `ok` and every other bit reads what it did.
pub is_set-set :
    (s : BitSet) (n m : ℕ) (ok : Bool)
    → is_set (set (some s) n ok) m ≡ (if n == m then ok else is_set (some s) m)
unfolding set
is_set-set s n m ok =
    let w = word_at s.words (n / 64) in
    let w' = if ok then bit_or w (2 ^ (n % 64)) else bit_clear w (2 ^ (n % 64)) in
    rw (word_is_set, word_at-put s.words (n / 64) (m / 64) w', word_is_set s m)
      (ground (arith, test_bit-or w (n % 64) (m % 64), test_bit-clear w (n % 64) (m % 64)))

is_set-new : (n : ℕ) → is_set new_bit_set n ≡ false
unfolding is_set new_bit_set get
is_set-new n = refl
