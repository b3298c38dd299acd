-- ===== src/Hash.antt =====
-- source/utilities/hash_util.c: hashing and matching of keys, for every kind of table.
use aer.Base.{ℕ, ◌*◌, ◌%◌, ◌^◌, ◌≡◌, ◌↔◌, Bool, true, ◌&&◌, [], ◌∷◌, arith, length, ◌==◌, bit_xor}
use aer.Base.Bytes.{Bytes, str_equal, str_equal_iff, str_equal_refl}

-- One round of `hash_key`: the byte is mixed in, and the product wraps at 64 bits.
hash_byte : ℕ → ℕ → ℕ
hash_byte hash byte = bit_xor hash (byte % 256) * 0x100000001b3 % 2 ^ 64

hash_from : ℕ → Bytes → ℕ
hash_from hash [] = hash
hash_from hash (c ∷ cs) = hash_from (hash_byte hash c) cs

unfoldable pub hash_key : Bytes → ℕ
unfolding hash_from hash_byte
hash_key key = hash_from 0xcbf29ce484222325 key

-- `(unsigned int)strlen(key)`
abbrev pub strlen32 : Bytes → ℕ
strlen32 key = length key % 2 ^ 32

-- `hash_match` at an entry whose key is not NULL.
unfoldable pub hash_match : Bytes → ℕ → Bytes → ℕ → Bool
hash_match entry_key entry_length key len = entry_length == len && str_equal entry_key key

-- With the lengths that the tables store, two keys match exactly when they are equal.
pub hash_match_iff : (a b : Bytes) → (hash_match a (strlen32 a) b (strlen32 b) ≡ true) ↔ (a ≡ b)
unfolding hash_match
hash_match_iff a b =
    (λ h. ground (arith, str_equal_iff a b), λ e. rw e (ground (arith, str_equal_refl b)))
